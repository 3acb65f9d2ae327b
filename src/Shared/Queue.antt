-- ===== src/Shared/Queue.antt =====
-- shared/asynciter.py and shared/synciter.py: an iterator backed by a queue. A queue is the sequence of
-- all that has been put into it; its one reader takes the items in that order, and what it yields is
-- a function of the sequence. The queues are built with size 0, that is, with no bound, so `put`
-- never waits.
use numaflow_python.Base.{◌≡◌, refl, Bool, true, false, List, [], ◌∷◌, ◌++◌, map}

-- What a queue holds: `STREAM_EOF`, or a value (which is never equal to that text).
pub data Item {ℓ} (A : Type ℓ) : Type ℓ where
  stream_eof : Item A
  item : A → Item A

abbrev pub Queue {ℓ} : Type ℓ → Type ℓ
Queue A = List (Item A)

-- What the reader has seen: the values, and whether its loop has ended. If not, it waits in `get`.
pub record Read {ℓ} (A : Type ℓ) : Type ℓ where
  pub yielded : List A
  pub ended : Bool

module _ {ℓ} {A : Type ℓ} where
  unfoldable pub put : Queue A → Item A → Queue A
  put q x = q ++ x ∷ []

  unfoldable pub read_iterator : Queue A → Read A
  read_iterator [] = record { yielded = []; ended = false }
  read_iterator (stream_eof ∷ q) = record { yielded = []; ended = true }
  read_iterator (item a ∷ q) =
      let rest = read_iterator q in record { yielded = a ∷ rest.yielded; ended = rest.ended }

  -- The reader of a queue that got the values `xs` and then the end yields `xs` and ends, whatever
  -- comes after; with no end, it waits.
  pub read_iterator-items :
      (xs : List A) (q : Queue A)
      → (read_iterator (map item xs ++ stream_eof ∷ q) ≡ record { yielded = xs; ended = true })
        × (read_iterator (map item xs) ≡ record { yielded = xs; ended = false })
  unfolding read_iterator
  read_iterator-items [] q = (refl, refl)
  read_iterator-items (x ∷ xs) q = let (p, r) = read_iterator-items xs q in (rw p, rw r)
