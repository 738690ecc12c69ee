-- ===== src/Lib.antt =====
-- camview shows the MJPEG stream of a USB camera on an Allwinner H3 board: the device loop of
-- src/main.c opens the camera, its capture loop reads frames, src/jpeg.c parses their headers,
-- src/jpeg_dec_main.c programs the video engine, whose device and memory src/ve.c manages, to
-- decode each into one of three frame buffers, and a thread of src/display.c shows them. A control
-- loop takes camera and display settings from a file, src/control-file.c, and from a mixer on the
-- CEC line of HDMI, src/cec_controls.c.
--
-- Ve models the memory of src/ve.c: the chunk list is a list, `ve_malloc`, `ve_free` and
-- `ve_virt2phys` are functions of it, and `mmap` is an argument. Ve/Fit is about the search,
-- Ve/Tiles about the chunks as a division of the reserved memory, Ve/RoundTrip about freeing what
-- was allocated, Ve/Scan about the search against a full one, Ve/Translate about addresses,
-- Ve/Session about the memory from `ve_open` on. Ve/Blocks is what a client sees of it: the blocks
-- in use, a quotient of the chunk lists that forgets their order and the free memory. Ve/Device
-- models `ve_open`, `ve_close` and the calls around the engine over what the kernel answers; a call
-- of the program is an entry in a list. Ve/Registers has the registers of src/ve.h that the program
-- uses.
--
-- Jpeg models `parse_jpeg` of src/jpeg.c with `struct jpeg_t` of src/jpeg.h. Pointers into the data
-- are offsets, and an access outside of the memory, which ends with the data or goes on behind
-- them, is the outcome `fault` of Jpeg/Run. The fuel of a loop is the number of bytes of the data,
-- or of the data or a segment and one; Jpeg/Bounds and Jpeg/Accept are about the state of the
-- parser, Jpeg/Reads and Jpeg/Overread about the accesses. Jpeg/Dump is `dump_jpeg`, which nothing
-- calls.
--
-- Display/Exchange models the three-buffer exchange of src/display.c between `display_thread_loop`
-- and the decoder (`get_buffer_number`, `put_buffer`), as a step relation with one step for each
-- section between two points where the threads may be switched, and the signals of the condition
-- variables. Display/Exchange/Inv has the invariant and Display/Exchange/Safety what follows.
-- Display/Layout models the sizes, offsets and colours of `init_display`, Display/Buffers how it
-- creates the buffers and how `deallocate_buffers` gives them back, Display/Planes the planes that
-- `find_new_plane` chooses and `stop_drm` frees, and Display/Color the properties that
-- `setPlanesColorFormat` sets. Display/Init puts them together as `init_display`, and Display/Start
-- is `start_drm`. What libdrm and the driver answer is an argument.
--
-- Decode models src/jpeg_dec_main.c: what `hw_decode_jpeg` writes to the registers, with
-- `set_format`, `set_size` and the quantisation tables in Decode, `set_huffman_tables` in
-- Decode/Huffman, and the addresses of `hw_init_display` and `get_buffer` in Decode/Frame.
-- Undefined behaviour is `none`; Decode/Total is about the frames that have none, Decode/Window
-- about the registers that are written. Decode/Main models `hw_init`, `hw_decode_jpeg_main` and
-- `hw_close` from the bytes of a frame on, over Ve, Jpeg and Display/Layout: Decode/Main/Frames is
-- about one frame, Decode/Main/Memory about a run. Decode/Main/Rounds adds the lock of the engine
-- and puts the rounds of a camera, from `hw_init` to `hw_close`, between `ve_open` and `ve_close`,
-- with what is then held of the kernel.
--
-- Control models src/control-file.c over a camera driver and a JSON library that are parameters,
-- with the documented laws of the library as hypotheses of Control/RoundTrip: Control/Write makes
-- the file, Control/Read and Control/File read it, Control/Set is `set_control`, and Control/Params
-- the `set_drm_*` functions of src/display.c. Control/Persist is the control loop of src/main.c
-- over the file. The fuel of `get_menu_ctrls_json` bounds the number of items of a menu, which
-- Control/Write/Menu shows to be enough.
--
-- Cec models src/cec_controls.c: the linked message queue in a heap of nodes (Cec/Queue), the
-- receiver (Cec/Receive), the scaling of values with `double` as a parameter (Cec/Apply) and
-- `poll_cec_events` (Cec/Poll), whose fuel is the number of messages and one. Cec/Adapter models
-- `init_cec_controls` and `stop_cec_controls` with what they call, over the answers of the kernel.
--
-- Main models src/main.c: when `control_loop` writes the controls file, with the settings
-- themselves and the events of inotify in Main/Persist, `capture_loop` with the signal handler in
-- Main/Capture, and in Main/Device the rounds of the device loop with the calls they make, over the
-- answers of the camera driver. A list of answers stands for a loop that runs until the driver or a
-- flag ends it. Main/Threads puts `main`, the two threads and SIGINT side by side: a schedule is a
-- list of steps, each of one of them, up to the next place where the others can read or write what
-- is shared. A `pthread_join` at the end of a round is a step that may not get through, here as in
-- Decode/Main/Rounds.
--
-- Memory models src/memory.c over `pread` of the page map. Eight rounds of its loop are enough, as
-- each reads a byte.
--
-- Not modelled: what the program prints, but for `dump_jpeg`; and the watch of the controls file,
-- which is opened and closed.
mod Base
pub mod Ve
pub mod Jpeg
pub mod Display
pub mod Decode
pub mod Cec
pub mod Control
pub mod Main
pub mod Memory
