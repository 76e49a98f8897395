-- ===== src/Transactions/Retry/Failure.antt =====
-- A redeem that fails puts the ticket's value back.
use arb_revm.Base.{
  List, Option, arith, false, if◌then◌else◌, le→leb, lt→ltb, ne→eq_false, none, refl, some, true,
  u64_max, ℕ, ℕ_discrete, ◌+◌, ◌-◌, ◌<◌, ◌==◌, ◌^◌, ◌∙◌, ◌≡◌, ◌≢◌, ◌≤◌,
}
use arb_revm.Journal.{ArbJournal, Lawful, ok, ◌>>=◌, ◌>>◌}
use arb_revm.Storage.Slot.Runs.{held, read, get_uint_lem, get_u256_lem}
use arb_revm.Storage.L1Pricing.Payments.{transfer_result}
use arb_revm.Storage.ArbosState.{ArbosState}
use arb_revm.Transactions.{Platform, LawfulPlatform, ArbTransaction, Block, timestamp_u64}
use arb_revm.Transactions.SubmitRetryable.{pay_if_any, pay}
use arb_revm.Transactions.Retry.{bump_sender, redeem_ticket, finish_ticket}
use arb_revm.Storage.Retryables.{exists, retryable_escrow_address, RetryableRecord, retryable}

module _ (J : ArbJournal) (L : Lawful J) (P : Platform J) (Q : LawfulPlatform J L P) where
  open J use {State}

  -- A call's sender has its nonce bumped.
  abbrev after_bump : ℕ → Option ℕ → State → State
  after_bump from none s = s
  after_bump from (some to) s = Q.bumped from s

  open L use {value, balance, transfer_lem, moved, balance-moved}

  -- A payment that is covered.
  pay_if_any_moves :
      (payer payee amount : ℕ) (s : State)
      → amount ≤ balance s payer
      → balance s payee + amount < 2 ^ 256
      → let (r, s') = pay_if_any J payer payee amount s in
        (r ≡ ok tt)
        × ((b : ℕ)
            → balance s' b ≡ (
                if payer == payee
                then balance s b
                else if payer == b
                then balance s b - amount
                else if payee == b
                then balance s b + amount
                else balance s b))
        × ((b k : ℕ) → value s' b k ≡ value s b k)
        × ((b : ℕ) → Q.nonce s' b ≡ Q.nonce s b)
  unfolding pay_if_any pay transfer_result
  pay_if_any_moves payer payee amount s covered room = elim (ℕ_discrete amount 0) [
    | yes z ↦ rw z (refl, λ b. ground arith, λ b k. refl, λ b. refl)
    | no nz ↦ rw (ne→eq_false amount 0 nz) (
        simp (transfer_lem payer payee amount s covered room, ◌>>=◌)
          (
            refl,
            λ b. balance-moved payer payee amount s b,
            λ b k. L.value-moved payer payee amount s b k,
            λ b. Q.nonce-moved payer payee amount s b,
          ))
  ]

  bump_sender_lem :
      (from : ℕ) (to : Option ℕ) (s : State)
      → P.bump_nonce from s ≡ (ok true, Q.bumped from s)
      → bump_sender J P from to s ≡ (ok tt, after_bump from to s)
  unfolding bump_sender
  bump_sender_lem from none s e = refl
  bump_sender_lem from (some to) s e = simp (e, ◌>>=◌) refl

  module _ (a : ArbosState) (tx : ArbTransaction) (block : Block) (ticket_id : ℕ) where
    abbrev ticket : RetryableRecord
    ticket = retryable J a.retryables ticket_id

    abbrev escrow : ℕ
    escrow = retryable_escrow_address J ticket_id

    -- A ticket that may be redeemed now: it exists, its escrow holds its value, which the sender has
    -- room for, and the sender is not the escrow and has a nonce left.
    pub record IsRedeemable (s : State) : Type 0 where
      pub now_fits : block.timestamp < 2 ^ 64
      pub timeout_fits : held J L s ticket.timeout < 2 ^ 64
      pub created : held J L s ticket.timeout ≢ 0
      pub unexpired : block.timestamp ≤ held J L s ticket.timeout
      pub covered : held J L s ticket.callvalue ≤ balance s escrow
      pub escrow_room : balance s escrow < 2 ^ 256
      pub sender_room : balance s tx.caller + held J L s ticket.callvalue < 2 ^ 256
      pub not_escrow : tx.caller ≢ escrow
      pub nonce_left : Q.nonce s tx.caller < u64_max

    exists_lem :
        (s : State)
        → IsRedeemable s
        → exists J ticket block.timestamp s ≡ (ok true, read J L ticket.timeout s)
    unfolding exists
    exists_lem s is =
        simp
          (
            get_uint_lem J L 64 ticket.timeout s is.timeout_fits,
            ne→eq_false _ 0 is.created,
            le→leb block.timestamp _ is.unexpired,
            ◌>>=◌,
          )
          refl

    abbrev before_payment : State → State
    before_payment s = read J L ticket.callvalue (read J L ticket.timeout s)

    abbrev paid : State → State
    paid s = (pay_if_any J escrow tx.caller (held J L s ticket.callvalue) (before_payment s)).1

    -- What a payment over the readings does.
    abbrev Moves : ℕ → ℕ → ℕ → State → State → Type 0
    Moves payer payee amount s s' =
        ((b : ℕ)
          → balance s' b ≡ (
              if payer == payee
              then balance s b
              else if payer == b
              then balance s b - amount
              else if payee == b
              then balance s b + amount
              else balance s b))
        × ((b k : ℕ) → value s' b k ≡ value s b k)

    pay_out :
        (s : State)
        → IsRedeemable s
        → ((pay_if_any J escrow tx.caller (held J L s ticket.callvalue) (before_payment s)).0
            ≡ ok tt)
          × Moves escrow tx.caller (held J L s ticket.callvalue) s (paid s)
    pay_out s is =
        let moves =
          pay_if_any_moves escrow tx.caller (held J L s ticket.callvalue) (before_payment s)
            (simp L.balance-seen is.covered) (simp L.balance-seen is.sender_room) in
        (
          moves.0,
          (
            λ b. ground (
              arith,
              moves.1 b,
              L.balance-seen ticket.callvalue.account ticket.callvalue.slot
                  (read J L ticket.timeout s) b,
              L.balance-seen ticket.timeout.account ticket.timeout.slot s b,
            ),
            λ b k. moves.2 b k ∙ simp L.value-seen,
          ),
        )

    paid_nonce : (s : State) → IsRedeemable s → Q.nonce (paid s) tx.caller ≡ Q.nonce s tx.caller
    paid_nonce s is =
        (pay_if_any_moves escrow tx.caller (held J L s ticket.callvalue) (before_payment s)
            (simp L.balance-seen is.covered) (simp L.balance-seen is.sender_room)).3
          tx.caller
        ∙ Q.nonce-seen ticket.callvalue.account ticket.callvalue.slot (read J L ticket.timeout s)
            tx.caller
        ∙ Q.nonce-seen ticket.timeout.account ticket.timeout.slot s tx.caller

    redeem_ticket_run :
        (s : State)
        → IsRedeemable s
        → redeem_ticket J P a tx block ticket_id s ≡ (ok tt, after_bump tx.caller tx.to (paid s))
    unfolding redeem_ticket timestamp_u64
    redeem_ticket_run s is =
        simp
          (
            lt→ltb block.timestamp (2 ^ 64) is.now_fits,
            exists_lem s is,
            get_u256_lem J L,
            L.value-seen,
            (pay_out s is).0,
            ◌>>=◌,
          )
          (bump_sender_lem tx.caller tx.to (paid s)
            (Q.bump_lem tx.caller (paid s) (omega (arith, paid_nonce s is, is.nonce_left))))

    abbrev redeemed : State → State
    redeemed s = after_bump tx.caller tx.to (paid s)

    redeemed_same :
        (s : State) (to : Option ℕ)
        → ((b : ℕ) → balance (after_bump tx.caller to s) b ≡ balance s b)
          × ((b k : ℕ) → value (after_bump tx.caller to s) b k ≡ value s b k)
    redeemed_same s none = (λ b. refl, λ b k. refl)
    redeemed_same s (some to) =
        (λ b. Q.balance-bumped tx.caller s b, λ b k. Q.value-bumped tx.caller s b k)

    -- If a ticket may be redeemed and the sender's nonce is not the last (`IsRedeemable`), a redeem whose
    -- execution fails and leaves the state as it was succeeds as a transaction's frame: its value goes
    -- to the sender and back, so that every balance and every word is as before.
    pub failed_redeem_restores :
        (pending_zombie_escrow_tickets : List ℕ) (s : State)
        → IsRedeemable s
        → let (r, s') =
            (redeem_ticket J P a tx block ticket_id
                >> finish_ticket J P a tx pending_zombie_escrow_tickets false ticket_id)
              s in
          (r ≡ ok tt)
          × ((b : ℕ) → balance s' b ≡ balance s b)
          × ((b k : ℕ) → value s' b k ≡ value s b k)
    unfolding finish_ticket
    failed_redeem_restores zombies s is =
        let v : ℕ = held J L s ticket.callvalue in
        let s3 : State = redeemed s in
        let s4 : State = read J L ticket.callvalue s3 in
        let out = (pay_out s is).1 in
        let same = redeemed_same (paid s) tx.to in
        let before : (b : ℕ) → balance s4 b ≡ balance (paid s) b =
          λ b. L.balance-seen ticket.callvalue.account ticket.callvalue.slot s3 b ∙ same.0 b in
        let value_there : held J L s3 ticket.callvalue ≡ v =
          same.1 ticket.callvalue.account ticket.callvalue.slot
          ∙ out.1 ticket.callvalue.account ticket.callvalue.slot in
        let back =
          pay_if_any_moves tx.caller escrow v s4
            (ground (arith, before tx.caller, out.0 tx.caller, is.not_escrow))
            (ground
              (arith, before escrow, out.0 escrow, is.not_escrow, is.covered, is.escrow_room)) in
        simp (redeem_ticket_run s is, get_u256_lem J L, value_there, ◌>>=◌)
          (
            back.0,
            λ b. ground (arith, back.1 b, before b, out.0 b, is.not_escrow, is.covered),
            λ b k.
                back.2 b k
                ∙ L.value-seen ticket.callvalue.account ticket.callvalue.slot s3 b k
                ∙ same.1 b k
                ∙ out.1 b k,
          )
