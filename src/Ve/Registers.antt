-- ===== src/Ve/Registers.antt =====
-- The registers of src/ve.h that the program's engine has: their offsets in the registers that `ve_open`
-- maps. Those of the engines that the program never takes are left out.
use camview_opipc.Base.{ℕ}

pub data Engine : Type 0 where
  mpeg h264 avc : Engine

abbrev pub engine_number : Engine → ℕ
engine_number Engine.mpeg = 0x0
engine_number Engine.h264 = 0x1
engine_number Engine.avc = 0xb

-- The registers that the engines share.
pub data Common : Type 0 where
  ctrl version output_format : Common

abbrev pub common_reg : Common → ℕ
common_reg Common.ctrl = 0x000
common_reg Common.version = 0x0f0
common_reg Common.output_format = 0x0ec

pub data Mpeg : Type 0 where
  pic_hdr vop_hdr size frame_size mba ctrl : Mpeg
  trigger status trbtrd_field trbtrd_frame vld_addr vld_offset : Mpeg
  vld_len vld_end mbh_addr dcac_addr ncf_addr rec_luma : Mpeg
  rec_chroma fwd_luma fwd_chroma back_luma back_chroma iq_min_input : Mpeg
  qp_input jpeg_size jpeg_res_int rot_luma rot_chroma sdrot_ctrl : Mpeg
  ram_write_ptr ram_write_data : Mpeg

abbrev pub mpeg_reg : Mpeg → ℕ
mpeg_reg Mpeg.pic_hdr = 0x100
mpeg_reg Mpeg.vop_hdr = 0x104
mpeg_reg Mpeg.size = 0x108
mpeg_reg Mpeg.frame_size = 0x10c
mpeg_reg Mpeg.mba = 0x110
mpeg_reg Mpeg.ctrl = 0x114
mpeg_reg Mpeg.trigger = 0x118
mpeg_reg Mpeg.status = 0x11c
mpeg_reg Mpeg.trbtrd_field = 0x120
mpeg_reg Mpeg.trbtrd_frame = 0x124
mpeg_reg Mpeg.vld_addr = 0x128
mpeg_reg Mpeg.vld_offset = 0x12c
mpeg_reg Mpeg.vld_len = 0x130
mpeg_reg Mpeg.vld_end = 0x134
mpeg_reg Mpeg.mbh_addr = 0x138
mpeg_reg Mpeg.dcac_addr = 0x13c
mpeg_reg Mpeg.ncf_addr = 0x144
mpeg_reg Mpeg.rec_luma = 0x148
mpeg_reg Mpeg.rec_chroma = 0x14c
mpeg_reg Mpeg.fwd_luma = 0x150
mpeg_reg Mpeg.fwd_chroma = 0x154
mpeg_reg Mpeg.back_luma = 0x158
mpeg_reg Mpeg.back_chroma = 0x15c
mpeg_reg Mpeg.iq_min_input = 0x180
mpeg_reg Mpeg.qp_input = 0x184
mpeg_reg Mpeg.jpeg_size = 0x1b8
mpeg_reg Mpeg.jpeg_res_int = 0x1c0
mpeg_reg Mpeg.rot_luma = 0x1cc
mpeg_reg Mpeg.rot_chroma = 0x1d0
mpeg_reg Mpeg.sdrot_ctrl = 0x1d4
mpeg_reg Mpeg.ram_write_ptr = 0x1e0
mpeg_reg Mpeg.ram_write_data = 0x1e4

-- The bytes of `mmap(NULL, 0x800, ...)` in `ve_open`.
abbrev pub mapped_size : ℕ
mapped_size = 0x800
