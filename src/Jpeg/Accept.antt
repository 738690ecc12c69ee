-- ===== src/Jpeg/Accept.antt =====
-- `parse_jpeg` ends on all inputs, and the header that it accepts points into the data.
use camview_opipc.Base.{
  ℕ, zero, suc, ◌+◌, ◌-◌, ◌≤◌, ◌<◌, ◌≡◌, ◌≢◌, refl, inl, inr, Bool, true, false, List, arith, ltb,
  ◌==◌, Bool-cases, All,
}
use camview_opipc.Jpeg.Run.{
  Outcome, done, no_fuel, ◌>>=◌, Returns, returns, rejects, mono, Returns-bind, done-Returns,
  Returns-ne-no_fuel,
}
use camview_opipc.Jpeg.{
  Jpeg, no_jpeg, has_soi, is_refused, process_sof0, process_sos, process_dri, segment, segment_at,
  skip_ff, next_segment, parse_loop, parse_jpeg_in,
}
use camview_opipc.Jpeg.Bounds.{
  IsByte, IsInBounds, byte-Returns, word-Returns, process_dqt-Returns, process_dht-Returns,
  sof_comps-Returns, sos_comps-Returns,
}

-- The data are the first `limit` bytes of the memory.
module _ (limit : ℕ) (bytes : List ℕ) (are_bytes : All IsByte bytes) where
  skip_ff-Returns :
      (fuel pos : ℕ)
      → limit < fuel + pos
      → 0 < fuel
      → Returns (λ at. pos ≤ at) (skip_ff fuel limit bytes pos)
  unfolding skip_ff
  skip_ff-Returns zero pos f g = absurd (omega arith)
  skip_ff-Returns (suc fuel) pos f g = elim (Bool-cases (ltb pos limit)) [
    | inr all ↦ rw (all, skip_ff) (returns (omega arith))
    | inl more ↦
        rw (more, skip_ff)
          (Returns-bind (byte-Returns limit bytes are_bytes pos) λ b _.
            elim (Bool-cases (b == 0xff)) [
              | inr other ↦ rw other (returns (omega arith))
              | inl fill ↦ rw fill (
                  mono (skip_ff-Returns fuel (pos + 1) (omega arith) (ground arith))
                    λ at h. omega arith)
            ])
  ]

  process_sof0-Returns :
      (pos : ℕ) (j : Jpeg)
      → IsInBounds limit j
      → Returns (IsInBounds limit) (process_sof0 bytes pos j)
  unfolding process_sof0
  process_sof0-Returns pos j v =
      Returns-bind (byte-Returns limit bytes are_bytes (pos + 2)) λ bits _.
        Returns-bind (word-Returns limit bytes are_bytes (pos + 5)) λ width w.
          Returns-bind (word-Returns limit bytes are_bytes (pos + 3)) λ height h.
            Returns-bind (byte-Returns limit bytes are_bytes (pos + 7)) λ n _.
              sof_comps-Returns limit bytes are_bytes n (pos + 8) _ (record {
                comps = v.comps;
                quants = v.quants;
                huffmans = v.huffmans;
                sizes = (w.1, h.1, v.sizes.2);
              })

  process_sos-Returns :
      (pos : ℕ) (j : Jpeg)
      → IsInBounds limit j
      → Returns (IsInBounds limit) (process_sos bytes pos j)
  unfolding process_sos
  process_sos-Returns pos j v =
      Returns-bind (byte-Returns limit bytes are_bytes (pos + 2))
        λ n _. sos_comps-Returns limit bytes are_bytes n (pos + 3) j v

  process_dri-Returns :
      (pos : ℕ) (j : Jpeg)
      → IsInBounds limit j
      → Returns (IsInBounds limit) (process_dri bytes pos j)
  unfolding process_dri
  process_dri-Returns pos j v =
      Returns-bind (word-Returns limit bytes are_bytes (pos + 2)) λ interval w. returns (record {
        comps = v.comps;
        quants = v.quants;
        huffmans = v.huffmans;
        sizes = (v.sizes.0, v.sizes.1, w.1);
      })

  with_flag :
      {r : Outcome Jpeg} (b : Bool)
      → Returns (IsInBounds limit) r
      → Returns (λ (x : Jpeg × Bool). IsInBounds limit x.0) (r >>= λ j. done (j, b))
  with_flag b h = Returns-bind h λ j v. returns v

  segment-Returns :
      (marker pos seg_len : ℕ) (j : Jpeg)
      → pos + seg_len < limit
      → IsInBounds limit j
      → Returns (λ x. IsInBounds limit x.0) (segment bytes marker pos seg_len j)
  unfolding segment
  segment-Returns marker pos seg_len j lt v = elim (Bool-cases (marker == 0xdb)) [
    | inl e ↦ rw e (
        with_flag false (
          process_dqt-Returns limit bytes are_bytes (pos + 2) (seg_len - 2) j (λ h. omega arith) v))
    | inr n₁ ↦ rw n₁ (elim (Bool-cases (marker == 0xc4)) [
      | inl e ↦ rw e (
          with_flag false (
            process_dht-Returns limit bytes are_bytes (pos + 2) (seg_len - 2) j (λ h. omega arith)
              v))
      | inr n₂ ↦ rw n₂ (elim (Bool-cases (marker == 0xc0)) [
        | inl e ↦ rw e (with_flag false (process_sof0-Returns pos j v))
        | inr n₃ ↦ rw n₃ (elim (Bool-cases (marker == 0xdd)) [
          | inl e ↦ rw e (with_flag false (process_dri-Returns pos j v))
          | inr n₄ ↦ rw n₄ (elim (Bool-cases (marker == 0xda)) [
            | inl e ↦ rw e (with_flag true (process_sos-Returns pos j v))
            | inr n₅ ↦ rw n₅ (elim (Bool-cases (is_refused marker)) [
              | inl e ↦ rw e rejects
              | inr n₆ ↦ rw n₆ (returns v)
            ])
          ])
        ])
      ])
    ])
  ]

  segment_at-Returns :
      (at : ℕ) (j : Jpeg)
      → IsInBounds limit j
      → Returns
          (λ r. IsInBounds limit r.0.0 × (at < r.1) × (r.1 < limit))
          (segment_at limit bytes at j)
  unfolding segment_at
  segment_at-Returns at j v = Returns-bind (byte-Returns limit bytes are_bytes at) λ marker _.
      Returns-bind (word-Returns limit bytes are_bytes (at + 1)) λ seg_len w.
        elim (Bool-cases (ltb (at + 1 + seg_len) limit)) [
          | inl fits ↦ rw fits (
              Returns-bind (segment-Returns marker (at + 1) seg_len j (ground arith) v)
                λ r v'. returns (v', omega arith, ground arith))
          | inr cut ↦ rw cut rejects
        ]

  next_segment-Returns :
      (pos : ℕ) (j : Jpeg)
      → IsInBounds limit j
      → Returns
          (λ r. IsInBounds limit r.0.0 × (pos < r.1) × (r.1 < limit))
          (next_segment limit bytes pos j)
  unfolding next_segment
  next_segment-Returns pos j v =
      Returns-bind (skip_ff-Returns (suc limit) pos (omega arith) (omega arith)) λ at le.
        elim (Bool-cases (ltb (at + 2) limit)) [
          | inl more ↦ rw more (mono (segment_at-Returns at j v) λ r h. (h.0, omega arith, h.2))
          | inr short ↦ rw short rejects
        ]

  parse_loop-Returns :
      (fuel pos : ℕ) (j : Jpeg)
      → limit < fuel + pos
      → pos ≤ limit
      → IsInBounds limit j
      → Returns
          (λ r. IsInBounds limit r.0 × (pos < r.1) × (r.1 < limit))
          (parse_loop fuel limit bytes pos j)
  unfolding parse_loop
  parse_loop-Returns zero pos j f p v = absurd (omega arith)
  parse_loop-Returns (suc fuel) pos j f p v = Returns-bind (next_segment-Returns pos j v) λ r h.
      elim (Bool-cases r.0.1) [
        | inl sos ↦ rw sos (returns h)
        | inr more ↦ rw more (
            mono (parse_loop-Returns fuel r.1 r.0.0 (omega arith) (omega arith) h.0)
              λ x k. (k.0, omega arith, k.2))
      ]

  no_jpeg-IsInBounds : IsInBounds limit no_jpeg
  no_jpeg-IsInBounds = record {
    comps = refl;
    quants = omega arith;
    huffmans = omega arith;
    sizes = omega arith;
  }

  has_soi-Returns : Returns (λ soi. soi ≡ true → 2 ≤ limit) (has_soi limit bytes)
  unfolding has_soi
  has_soi-Returns = elim (Bool-cases (ltb limit 2)) [
    | inl short ↦ rw short (returns (λ e. absurd (cc)))
    | inr long ↦ rw long (
        Returns-bind (byte-Returns limit bytes are_bytes 0) λ a _. elim (Bool-cases (a == 0xff)) [
          | inr other ↦ rw other (returns (λ e. absurd (cc)))
          | inl ff ↦ rw ff (
              Returns-bind (byte-Returns limit bytes are_bytes 1)
                λ b _. returns (λ e. ground arith))
        ])
  ]

  -- The scan follows the header: it starts behind the first segment and ends the data.
  abbrev pub HasScan : Jpeg → Type 0
  HasScan j = (2 < j.start) × (0 < j.data_len) × (j.start + j.data_len ≡ limit)

  located :
      (j : Jpeg) (pos : ℕ)
      → IsInBounds limit j
      → IsInBounds limit (record j { start = pos; data_len = limit - pos })
  located j pos v = record {
    comps = v.comps;
    quants = v.quants;
    huffmans = v.huffmans;
    sizes = v.sizes;
  }

  parse_jpeg_in-Returns : Returns (λ j. IsInBounds limit j × HasScan j) (parse_jpeg_in limit bytes)
  unfolding parse_jpeg_in
  parse_jpeg_in-Returns = Returns-bind has_soi-Returns λ soi two. elim (Bool-cases soi) [
    | inl found ↦ rw found (
        Returns-bind
          (parse_loop-Returns limit 2 no_jpeg (omega arith) (two found) no_jpeg-IsInBounds)
          λ r h. returns (located r.0 r.1 h.0, (h.1, omega arith, omega arith)))
    | inr other ↦ rw other rejects
  ]

  -- The parser's loops end, whatever is in the memory.
  pub parse_jpeg_in_ends : parse_jpeg_in limit bytes ≢ no_fuel
  parse_jpeg_in_ends = Returns-ne-no_fuel parse_jpeg_in-Returns

  -- If the parser accepts the data, whatever is in the memory behind them, there are three
  -- components, the tables that are set start inside the data, width, height and restart interval
  -- have 16 bits, and the scan is a non-empty rest of the data behind the header.
  pub parse_jpeg_in-IsInBounds :
      (j : Jpeg) → parse_jpeg_in limit bytes ≡ done j → IsInBounds limit j × HasScan j
  parse_jpeg_in-IsInBounds j e = done-Returns parse_jpeg_in-Returns e
