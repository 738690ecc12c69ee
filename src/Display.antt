-- ===== src/Display.antt =====
-- src/display.c: the exchange of the three frame buffers between the decoder and the display
-- thread, the layout and the creation of the frame buffers, and the planes that show them with
-- their colour properties; `Init` is `init_display` as a whole, and `Start` is `start_drm`.
pub mod Exchange
pub mod Layout
pub mod Planes
pub mod Color
pub mod Buffers
pub mod Init
pub mod Start
