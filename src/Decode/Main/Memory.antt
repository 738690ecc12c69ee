-- ===== src/Decode/Main/Memory.antt =====
-- The input buffer lives from `hw_init` to `hw_close`.
use camview_opipc.Base.{
  ℕ, ◌*◌, ◌≡◌, ◌≢◌, refl, ◌∙◌, true, List, [], ◌∷◌, Option, some, arith, ◌>>=◌, Option-cases, inl,
  inr,
}
use camview_opipc.Ve.{Mmap}
use camview_opipc.Ve.RoundTrip.{Coalesced, IsFresh, ve_free-ve_malloc}
use camview_opipc.Jpeg.{Jpeg, parse_jpeg}
use camview_opipc.Jpeg.Run.{Outcome, done, reject, fault, no_fuel}
use camview_opipc.Decode.Frame.{round_up}
use camview_opipc.Decode.Main.{
  Decoder, hw_init, hw_close, Answers, Action, hw_init_display, decode_parsed, hw_decode_jpeg_main,
}

-- The parts of the decoder that the frames leave alone.
abbrev pub SameInput : Decoder → Decoder → Type 0
SameInput d e = (e.ve ≡ d.ve) × (e.input_buffer ≡ d.input_buffer) × (e.input_size ≡ d.input_size)

-- The frames of a run, each with what the environment answers.
unfoldable pub decode_all : List (Answers × List ℕ) → Decoder → Option Decoder
decode_all [] d = some d
decode_all ((a, bytes) ∷ rest) d = hw_decode_jpeg_main a bytes d >>= λ r. decode_all rest r.0

parsed-same :
    (a : Answers) (bytes : List ℕ) (jpeg : Jpeg) (d e : Decoder) (acts : List Action)
    → decode_parsed a bytes jpeg d ≡ some (e, acts)
    → SameInput d e
unfolding decode_parsed hw_init_display
parsed-same a bytes jpeg d e acts h = ground arith

outcome-same :
    (a : Answers) (bytes : List ℕ) (d e : Decoder) (acts : List Action) (o : Outcome Jpeg)
    → parse_jpeg bytes ≡ o
    → hw_decode_jpeg_main a bytes d ≡ some (e, acts)
    → SameInput d e
unfolding hw_decode_jpeg_main
outcome-same a bytes d e acts (done jpeg) p h =
    parsed-same a bytes jpeg d e acts (rw (hw_decode_jpeg_main, p) at h)
outcome-same a bytes d e acts reject p h = ground (arith, rw (hw_decode_jpeg_main, p) at h)
outcome-same a bytes d e acts fault p h = absurd (cc (rw (hw_decode_jpeg_main, p) at h))
outcome-same a bytes d e acts no_fuel p h = absurd (cc (rw (hw_decode_jpeg_main, p) at h))

pub decode_all-same :
    (frames : List (Answers × List ℕ)) (d e : Decoder)
    → decode_all frames d ≡ some e
    → SameInput d e
unfolding decode_all
decode_all-same [] d e h = ground arith
decode_all-same ((a, bytes) ∷ rest) d e h = elim (Option-cases (hw_decode_jpeg_main a bytes d)) [
  | inl n ↦ absurd (cc (rw n at h))
  | inr ((d', acts), n) ↦
      let (v, b, s) = outcome-same a bytes d d' acts (parse_jpeg bytes) refl n in
      let (v', b', s') = decode_all-same rest d' e (rw n at h) in (v' ∙ v, b' ∙ b, s' ∙ s)
]

-- After `hw_init`, any frames whose decoding is defined, and `hw_close`, the memory of the video
-- engine is what it was before `hw_init`, if no two free chunks stood side by side and the input
-- buffer, where there is one, is at the address of no chunk.
pub hw_close-hw_init :
    (mmap : Mmap) (width height : ℕ) (frames : List (Answers × List ℕ)) (d e : Decoder)
    → Coalesced d.ve.chunks
    → ((hw_init mmap width height d).input_buffer ≢ 0
        → IsFresh (hw_init mmap width height d).input_buffer d.ve.chunks)
    → decode_all frames (hw_init mmap width height d) ≡ some e
    → (hw_close e).ve ≡ d.ve
unfolding hw_init hw_close
hw_close-hw_init mmap width height frames d e c fresh h =
    let (v, b, s) = decode_all-same frames (hw_init mmap width height d) e h in
    rw (v, b) (ve_free-ve_malloc mmap d.ve (round_up 65536 (width * height * 3)) true c fresh)
