-- ===== src/Transactions/Internal/Dispatch.antt =====
-- What a block's start leaves in the context, and what it does not accept.
use arb_revm.Base.{
  Bool, Bool-cases, List, [], ap, take, ◌∙◌, arith, eq_true→eq, false, inl, inr, length, ltb, refl,
  subst, sym, true, ℕ, ◌==◌, ◌^◌, ◌≡◌, ◌≢◌, ◌⊎◌,
}
use arb_revm.Journal.{ArbJournal, Result, ok, err, bad_calldata, ◌>>=◌}
use arb_revm.Transactions.{Platform, Block}
use arb_revm.Transactions.Internal.{
  start_block_selector, apply_internal_tx, apply_start_block, with_arguments, in_block, new_block,
  start_block, number_u64, word_as_u64, arg_u64, BlockSession,
}
use arb_revm.Transactions.Calldata.{equal_bytes, selector_size}
use arb_revm.Storage.ArbosState.{ArbosState, open_arbos}

module _ (J : ArbJournal) (P : Platform J) where
  start_block_mismatch :
      (a : ArbosState) (block : Block) (l1_block l2_block time : ℕ) (s : J.State) (n : ℕ)
      → (l2_block == block.number) ≡ false
      → (start_block J P a block l1_block l2_block time s).0 ≢ ok n
  unfolding start_block number_u64 word_as_u64
  start_block_mismatch a block l1_block l2_block time s n e =
      elim (Bool-cases (ltb block.number (2 ^ 64))) [
        | inl fits ↦ simp (fits, e, ◌>>=◌) (λ q. ground arith)
        | inr wide ↦ simp (wide, ◌>>=◌) (λ q. ground arith)
      ]

  -- A start of a block that gives a result names the block.
  start_block_number :
      (a : ArbosState) (block : Block) (l1_block l2_block time : ℕ) (s : J.State) (n : ℕ)
      → (start_block J P a block l1_block l2_block time s).0 ≡ ok n
      → l2_block ≡ block.number
  start_block_number a block l1_block l2_block time s n e =
      elim (Bool-cases (l2_block == block.number)) [
        | inl same ↦ eq_true→eq l2_block block.number same
        | inr other ↦ absurd (start_block_mismatch a block l1_block l2_block time s n other e)
      ]

  abbrev finish : ℕ × List ℕ → Result ℕ × J.State → Result (Unit {0}) × BlockSession J
  finish chain r = elim r.0 [ ok n ↦ (ok tt, (r.1, (n, []))) | err x ↦ (err x, (r.1, chain)) ]

  abbrev started : Block → List ℕ → J.State → Result ℕ × J.State
  started block input s =
      start_block J P (open_arbos J) block (arg_u64 input 1) (arg_u64 input 2) (arg_u64 input 3) s

  start_run :
      (block : Block) (input : List ℕ) (s : J.State) (chain : ℕ × List ℕ)
      → (length input == 132) ≡ true
      → apply_start_block J P block input (s, chain) ≡ finish chain (started block input s)
  unfolding apply_start_block with_arguments in_block new_block
  start_run block input s chain e = simp e refl

  start_short :
      (block : Block) (input : List ℕ) (s : J.State) (chain : ℕ × List ℕ)
      → (length input == 132) ≡ false
      → apply_start_block J P block input (s, chain) ≡ (err bad_calldata, (s, chain))
  unfolding apply_start_block with_arguments
  start_short block input s chain e = simp e refl

  -- What the context is after a run.
  abbrev context : Result (Unit {0}) × BlockSession J → ℕ × List ℕ
  context r = r.1.1

  -- The run was a start of the block that the calldata names: it leaves the L1 block number that the
  -- start gives, and no ticket.
  abbrev IsStarted : Block → List ℕ → J.State → Result (Unit {0}) × BlockSession J → Type 0
  IsStarted block input s run =
      (arg_u64 input 2 ≡ block.number)
      × ((n : ℕ) × ((started block input s).0 ≡ ok n) × (context run ≡ (n, [])))

  finish-IsStarted :
      (block : Block) (input : List ℕ) (s : J.State) (chain : ℕ × List ℕ) (r : Result ℕ × J.State)
      → started block input s ≡ r
      → (finish chain r).0 ≡ ok tt
      → IsStarted block input s (finish chain r)
  finish-IsStarted block input s chain (ok n, s') run e = (
    start_block_number (open_arbos J) block (arg_u64 input 1) (arg_u64 input 2) (arg_u64 input 3) s
        n (ap (λ t. t.0) run),
    (n, ap (λ t. t.0) run, refl),
  )
  finish-IsStarted block input s chain (err x, s') run e = absurd (ground arith)

  apply_start_block-context :
      (block : Block) (input : List ℕ) (s : J.State) (chain : ℕ × List ℕ)
      → (apply_start_block J P block input (s, chain)).0 ≡ ok tt
      → IsStarted block input s (apply_start_block J P block input (s, chain))
  apply_start_block-context block input s chain = elim (Bool-cases (length input == 132)) [
    | inl there ↦
        subst (λ r. r.0 ≡ ok tt → IsStarted block input s r)
          (sym (start_run block input s chain there))
          (finish-IsStarted block input s chain (started block input s) refl)
    | inr not_there ↦
        subst (λ r. r.0 ≡ ok tt → IsStarted block input s r)
          (sym (start_short block input s chain not_there)) (λ e. absurd (ground arith))
  ]

  abbrev is_start : List ℕ → Bool
  is_start input = equal_bytes (take selector_size input) start_block_selector

  start_dispatch :
      (block : Block) (input : List ℕ) (s : J.State) (chain : ℕ × List ℕ)
      → is_start input ≡ true
      → (apply_internal_tx J P block input (s, chain)).0 ≡ ok tt
      → apply_internal_tx J P block input (s, chain) ≡ apply_start_block J P block input (s, chain)
  unfolding apply_internal_tx
  start_dispatch block input s chain starts e =
      elim (Bool-cases (ltb (length input) selector_size)) [
        | inl short ↦ absurd (ground arith)
        | inr long ↦ simp (starts, long) refl
      ]

  -- Whatever the journal does, an internal transaction that succeeds and has the selector of a block's
  -- start names the block, and leaves in the context the L1 block number that the start gives and no
  -- ticket of an earlier block; with another selector it leaves the context as it was.
  pub apply_internal_tx-context :
      (block : Block) (input : List ℕ) (s : J.State) (chain : ℕ × List ℕ)
      → (apply_internal_tx J P block input (s, chain)).0 ≡ ok tt
      → ((is_start input ≡ true)
          × IsStarted block input s (apply_internal_tx J P block input (s, chain)))
        ⊎ ((is_start input ≡ false)
            × (context (apply_internal_tx J P block input (s, chain)) ≡ chain))
  unfolding apply_internal_tx in_block
  apply_internal_tx-context block input s chain e = elim (Bool-cases (is_start input)) [
    | inl starts ↦
        let run = start_dispatch block input s chain starts e in
        inl (
          starts,
          subst (λ r. IsStarted block input s r) (sym run)
              (apply_start_block-context block input s chain (ap (λ r. r.0) (sym run) ∙ e)),
        )
    | inr other ↦ inr (other, ground arith)
  ]
