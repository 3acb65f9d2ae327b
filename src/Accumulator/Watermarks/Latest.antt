-- ===== src/Accumulator/Watermarks/Latest.antt =====
-- Which watermark ends which window.
use numaflow_python.Base.{
  ◌≡◌, refl, sym, ap, ◌∙◌, ◌⊎◌, inl, inr, Bool, true, false, Option, none, some, List, [], ◌∷◌,
  ◌++◌, map, length, suc, arith, ◌≤◌, All,
}
use numaflow_python.Base.Text.{Str}
use numaflow_python.Shared.Queue.{item, stream_eof, read_iterator-items}
use numaflow_python.Shared.Proto.{Protobuf, DateTime}
use numaflow_python.Accumulator.Watermarks.{
  Message, Response, eof, update_watermark, window_until, response_of, write, write_to_global_queue,
}

-- A message with a watermark has none after `wm`.
abbrev Within : DateTime → Option DateTime → Type 0
Within wm none = Unit
Within wm (some w) = w ≤ wm

abbrev Among : DateTime → List Message → Type 0
Among wm [] = ⊥
Among wm (m ∷ ms) = (m.watermark ≡ some wm) ⊎ Among wm ms

-- The latest of a first watermark and those of the messages: it is one of them, and none is later.
pub record IsLatest (first : DateTime) (msgs : List Message) (wm : DateTime) : Type 0 where
  pub not_before : first ≤ wm
  pub bound : All (λ m. Within wm m.watermark) msgs
  pub attained : (wm ≡ first) ⊎ Among wm msgs

abbrev pub latest : DateTime → List Message → DateTime
latest wm [] = wm
latest wm (m ∷ ms) = latest (update_watermark wm m.watermark) ms

update-le : (wm : DateTime) (w : Option DateTime) → wm ≤ update_watermark wm w
unfolding update_watermark
update-le wm none = omega arith
update-le wm (some w) = ground arith

update-Within : (wm x : DateTime) (w : Option DateTime) → update_watermark wm w ≤ x → Within x w
unfolding update_watermark
update-Within wm x none h = tt
update-Within wm x (some w) h = ground arith

update-cases :
    (wm : DateTime) (w : Option DateTime)
    → (update_watermark wm w ≡ wm) ⊎ (w ≡ some (update_watermark wm w))
unfolding update_watermark
update-cases wm none = inl refl
update-cases wm (some w) = ground arith

latest-IsLatest : (wm : DateTime) (ms : List Message) → IsLatest wm ms (latest wm ms)
latest-IsLatest wm [] = record { not_before = omega arith; bound = tt; attained = inl refl }
latest-IsLatest wm (m ∷ ms) =
    let h = latest-IsLatest (update_watermark wm m.watermark) ms in
    let le = update-le wm m.watermark in
    let before = h.not_before in
    record {
      not_before = omega arith;
      bound = (update-Within wm _ m.watermark h.not_before, h.bound);
      attained = elim h.attained [
        | inr among ↦ inr (inr among)
        | inl e ↦ elim (update-cases wm m.watermark) [
          | inl same ↦ inl (e ∙ same)
          | inr new ↦ inr (inl (new ∙ ap (λ x. some x) (sym e)))
        ]
      ];
    }

latest-append :
    (wm : DateTime) (us vs : List Message) → latest wm (us ++ vs) ≡ latest (latest wm us) vs
latest-append wm [] vs = refl
latest-append wm (u ∷ us) vs = latest-append (update_watermark wm u.watermark) us vs

module _ (pb : Protobuf) (unset : pb.Timestamp) (epoch : DateTime) (keys : List Str) where
  abbrev pub written : DateTime → List Message → Bool → List (Response pb) × DateTime
  written wm msgs done = write pb unset epoch keys wm msgs done

  abbrev pub result_of : Message → DateTime → Response pb
  result_of msg wm = response_of pb unset epoch keys msg wm

  abbrev pub eof_at : DateTime → Response pb
  eof_at wm = eof (window_until pb unset epoch keys wm)

  pub write-append :
      (wm : DateTime) (us vs : List Message) (done : Bool)
      → written wm (us ++ vs) done ≡ (
        (written wm us false).0 ++ (written (latest wm us) vs done).0,
        (written (latest wm us) vs done).1,
      )
  unfolding write
  write-append wm [] vs done = refl
  write-append wm (u ∷ us) vs done =
      rw (write-append (update_watermark wm u.watermark) us vs done) refl

  write-ended :
      (wm : DateTime) (msgs : List Message)
      → (rest : List (Response pb)) × (length rest ≡ length msgs)
        × (written wm msgs true ≡ (rest ++ eof_at (latest wm msgs) ∷ [], latest wm msgs))
  unfolding write
  write-ended wm [] = ([], refl, refl)
  write-ended wm (m ∷ msgs) =
      let wm' = update_watermark wm m.watermark in
      let (rest, n, e) = write-ended wm' msgs in
      (result_of m wm' ∷ rest, ap (λ l. suc l) n, rw e refl)

  -- What is written for the messages of a task and their end, from a first watermark on. At each
  -- message: first what the messages before it make, then the response to it, whose window ends at the
  -- latest of the first watermark and those of the messages up to it; then one response for each
  -- message after it; then, once, the EOF, whose window ends at the latest of all, which is also the
  -- watermark that the task keeps.
  pub write_to_global_queue-IsLatest :
      (first : DateTime) (us : List Message) (m : Message) (vs : List Message)
      → (x y : DateTime) × (rest : List (Response pb)) × IsLatest first (us ++ m ∷ []) x
        × IsLatest first (us ++ m ∷ vs) y
        × (length rest ≡ length vs)
        × (write_to_global_queue pb unset epoch keys first
              (map item (us ++ m ∷ vs) ++ stream_eof ∷ [])
            ≡ (
              (write_to_global_queue pb unset epoch keys first (map item us)).0
                  ++ result_of m x ∷ (rest ++ eof_at y ∷ []),
              y,
            ))
  unfolding write_to_global_queue write
  write_to_global_queue-IsLatest first us m vs =
      let x = latest first (us ++ m ∷ []) in
      let y = latest first (us ++ m ∷ vs) in
      let (rest, n, e) = write-ended (update_watermark (latest first us) m.watermark) vs in
      (
        x,
        y,
        rest,
        latest-IsLatest first (us ++ m ∷ []),
        latest-IsLatest first (us ++ m ∷ vs),
        n,
        rw
            (
              (read_iterator-items (us ++ m ∷ vs) []).0,
              (read_iterator-items us []).1,
              write-append first us (m ∷ vs) true,
              e,
              latest-append first us (m ∷ []),
              latest-append first us (m ∷ vs),
            )
            refl,
      )
