-- ===== src/Storage/Queue/Fifo/Calls.antt =====
-- Sequences of calls: no client can tell the stored queue from a list.
use arb_revm.Base.{
  List, Option, [], arith, fun_ext, length, none, refl, some, subst, sym, u64_max, ℕ, ℕ_discrete,
  ◌++◌, ◌+◌, ◌<◌, ◌^◌, ◌∷◌, ◌≡◌, ◌≢◌, ◌≤◌,
}
use arb_revm.Journal.{ArbJournal, Lawful, M, ok, pure, ◌>>=◌, ◌>>◌}
use arb_revm.Storage.Space.{StorageSpace}
use arb_revm.Storage.Space.Apart.{AreApart}
use arb_revm.Storage.Queue.{StorageQueue, open_queue}
use arb_revm.Storage.Queue
use arb_revm.Storage.Queue.Steps.{cell, cell-put, peeked, get_empty, cell-get}
use arb_revm.Storage.Queue.Fifo.{
  contents, IsQueue, put_refines, put-IsQueue, get_refines, get-IsQueue,
}
use arb_revm.Storage.Queue.Windows.{between-empty}

pub data Call : Type 0 where
  put : ℕ → Call
  get : Call

-- A list serves a call: the reply, and the list afterwards.
abbrev pub list_serve : List ℕ → Call → Option ℕ × List ℕ
list_serve xs (put v) = (none, xs ++ (v ∷ []))
list_serve [] get = (none, [])
list_serve (x ∷ xs) get = (some x, xs)

pub list_run : List ℕ → List Call → List (Option ℕ)
list_run xs [] = []
list_run xs (c ∷ cs) = (list_serve xs c).0 ∷ list_run (list_serve xs c).1 cs

module _ (J : ArbJournal) where
  open J use {State}

  unfoldable pub serve : StorageQueue → Call → M State (Option ℕ)
  serve q (put v) = do Queue.put J q v; pure none
  serve q get = Queue.get J q

  pub run : StorageQueue → List Call → M State (List (Option ℕ))
  run q [] = pure []
  run q (c ∷ cs) = do r ← serve q c; rs ← run q cs; pure (r ∷ rs)

module _ (J : ArbJournal) (L : Lawful J) (sp : StorageSpace) (apart : AreApart J (2 ^ 64) sp) where
  open J use {State}

  -- What one call has done, started at `s`.
  record Served (s : State) (c : Call) (out : State) : Type 0 where
    reply : (serve J (open_queue J sp) c s).0 ≡ ok (list_serve (contents J L sp s) c).0
    same_state : (serve J (open_queue J sp) c s).1 ≡ out
    left : contents J L sp out ≡ (list_serve (contents J L sp s) c).1
    valid : IsQueue J L sp out
    room : cell J L sp out 0 ≤ cell J L sp s 0 + 1

  put-Served :
      (s : State) (v : ℕ)
      → IsQueue J L sp s
      → cell J L sp s 0 + 1 < u64_max
      → Served s (put v) (Queue.put J (open_queue J sp) v s).1
  unfolding serve
  put-Served s v q h = record {
    reply = ground (arith, put_refines J L sp apart s q v);
    same_state = ground (arith, put_refines J L sp apart s q v);
    left = (put_refines J L sp apart s q v).1;
    valid = put-IsQueue J L sp apart s q v h;
    room = ground (arith, cell-put J L sp apart s (omega arith) (omega arith) v 0);
  }

  cells_peeked : (s : State) → cell J L sp (peeked J L sp s) ≡ cell J L sp s
  cells_peeked s = fun_ext (λ i. simp (L.value-seen))

  get-Served_empty :
      (s : State)
      → IsQueue J L sp s
      → cell J L sp s 0 ≡ cell J L sp s 1
      → Served s get (Queue.get J (open_queue J sp) s).1
  unfolding serve
  get-Served_empty s q e = record {
    reply = rw (run, nothing) refl;
    same_state = refl;
    left = rw (run, cells_peeked s, nothing) refl;
    valid = rw (run, cells_peeked s) q;
    room = rw (run, cells_peeked s) (omega arith);
  }
    where
      run : Queue.get J (open_queue J sp) s ≡ (ok none, peeked J L sp s)
      run = get_empty J L sp apart s (omega arith) (omega arith) e

      nothing : contents J L sp s ≡ []
      nothing = between-empty (cell J L sp s) e

  get-Served_some :
      (s : State)
      → IsQueue J L sp s
      → cell J L sp s 0 ≢ cell J L sp s 1
      → Served s get (Queue.get J (open_queue J sp) s).1
  unfolding serve
  get-Served_some s q ne =
      let (x, replied, _, split) = get_refines J L sp apart s q ne in
      record {
        reply = rw (split, replied);
        same_state = refl;
        left = rw split;
        valid = get-IsQueue J L sp apart s q ne;
        room =
            ground (arith, cell-get J L sp apart s (omega arith) (omega arith) ne (omega arith) 0);
      }

  serve-Served :
      (c : Call) (s : State)
      → IsQueue J L sp s
      → cell J L sp s 0 + 1 < u64_max
      → Served s c (serve J (open_queue J sp) c s).1
  serve-Served (put v) s q h =
      subst (Served s (put v)) (sym (put-Served s v q h).same_state) (put-Served s v q h)
  serve-Served get s q h = elim (ℕ_discrete (cell J L sp s 0) (cell J L sp s 1)) [
    | yes e ↦ unfold serve in get-Served_empty s q e
    | no ne ↦ unfold serve in get-Served_some s q ne
  ]

  -- Where the keys of the space have slots of their own and the pointers of the queue are in
  -- order, any sequence of `put` and `get` calls for which a `u64` has room succeeds and gets the
  -- replies that a list of the same entries would give: first in, first out, with no call lost or
  -- failed.
  pub run_refines :
      (cs : List Call) (s : State)
      → IsQueue J L sp s
      → cell J L sp s 0 + length cs < u64_max
      → (run J (open_queue J sp) cs s).0 ≡ ok (list_run (contents J L sp s) cs)
  unfolding run list_run
  run_refines [] s q h = refl
  run_refines (c ∷ cs) s q h =
      let served : Served s c (serve J (open_queue J sp) c s).1 =
        serve-Served c s q (omega arith) in
      ground (
        arith,
        served.reply,
        served.left,
        run_refines cs (serve J (open_queue J sp) c s).1 served.valid (omega (arith, served.room)),
      )
