-- ===== src/Shared/Streams/Queues.antt =====
-- The input queues of tasks that have not been given its end.
use mathlib.Core.List.{map-append}
use numaflow_python.Base.{◌≡◌, sym, ap, ◌∙◌, [], ◌∷◌, ◌++◌, map}
use numaflow_python.Shared.Queue.{Queue, item, put, read_iterator, read_iterator-items}

module _ {A : Type 0} where
  abbrev pub IsOpen : Queue A → Type 0
  IsOpen q = q ≡ map item (read_iterator q).yielded

  pub yielded-put :
      (q : Queue A) (x : A)
      → IsOpen q
      → (read_iterator (put q (item x))).yielded ≡ (read_iterator q).yielded ++ x ∷ []
  unfolding put
  yielded-put q x h =
      let xs = (read_iterator q).yielded in
      ap (λ l. (read_iterator (l ++ item x ∷ [])).yielded) h
      ∙ ap (λ l. (read_iterator l).yielded) (sym (map-append item xs (x ∷ [])))
      ∙ ap (λ r. r.yielded) (read_iterator-items (xs ++ x ∷ []) []).1

  pub put-IsOpen : (q : Queue A) (x : A) → IsOpen q → IsOpen (put q (item x))
  unfolding put
  put-IsOpen q x h =
      ap (λ l. l ++ item x ∷ []) h
      ∙ sym (map-append item (read_iterator q).yielded (x ∷ []))
      ∙ ap (map item) (sym (yielded-put q x h))
