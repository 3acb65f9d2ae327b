-- ===== src/Shared/Workers/Consuming.antt =====
-- The consumer, item by item.
use numaflow_python.Base.{◌≡◌, refl, List, [], ◌∷◌}
use numaflow_python.Shared.Queue.{Queue, item, stream_eof, read_iterator}
use numaflow_python.Shared.Server.{Exception, Result, ok, raised, Effect, return, block, send, fail}
use numaflow_python.Shared.Workers.{forward, consume}

module _ {Out : Type 0} (on_error : Exception → List Effect) where
  pub consume-end : (q : Queue (Result Out)) → consume on_error (stream_eof ∷ q) ≡ return
  unfolding consume forward read_iterator
  consume-end q = refl

  pub consume-ok :
      (o : Out) (q : Queue (Result Out))
      → consume on_error (item (ok o) ∷ q) ≡ send (o ∷ []) (consume on_error q)
  unfolding consume forward read_iterator
  consume-ok o q = refl

  pub consume-raised :
      (e : Exception) (q : Queue (Result Out))
      → consume on_error (item (raised e) ∷ q) ≡ fail (on_error e)
  unfolding consume forward read_iterator
  consume-raised e q = refl

  pub consume-nil : consume {Out = Out} on_error [] ≡ block
  unfolding consume forward read_iterator
  consume-nil = refl
