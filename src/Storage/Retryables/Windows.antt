-- ===== src/Storage/Retryables/Windows.antt =====
-- How long a ticket lives, with the windows that it has left.
use arb_revm.Base.{
  ap, arith, eq_self, false, saturating_add, saturating_mul, sym, ◌&&◌, ◌*◌, ◌+◌, ◌-◌, ◌<◌, ◌==◌,
  ◌^◌, ◌∙◌, ◌≡◌,
}
use arb_revm.Journal.{ArbJournal, Lawful, ok, ◌>>=◌, ◌>>◌}
use arb_revm.Storage.Space.{StorageSlot}
use arb_revm.Storage.Retryables.{
  RetryableRecord, use_window, timeout_with_windows, retryable_lifetime_seconds,
}
use arb_revm.Storage.Slot.Runs.{held, read, written, get_uint_lem, set_u64_lem}

module _ (J : ArbJournal) (L : Lawful J) where
  open J use {State}
  open L use {value, value-seen, value-stored}

  abbrev pub AreDistinct : StorageSlot → StorageSlot → Type 0
  AreDistinct p q = ((p.account == q.account) && (p.slot == q.slot)) ≡ false

  timeout_with_windows_lem :
      (t : RetryableRecord) (s : State)
      → held J L s t.timeout < 2 ^ 64
      → held J L s t.timeout_windows_left < 2 ^ 64
      → (timeout_with_windows J t s).0
        ≡ ok (
            saturating_add 64
              (held J L s t.timeout)
              (saturating_mul 64 (held J L s t.timeout_windows_left) retryable_lifetime_seconds))
  unfolding timeout_with_windows
  timeout_with_windows_lem t s small small' = simp (
    get_uint_lem J L 64 t.timeout s small,
    get_uint_lem J L 64 t.timeout_windows_left (read J L t.timeout s) (rw value-seen small'),
    value-seen,
    ◌>>=◌,
  )

  -- A ticket that uses one of its windows, of which it has one, lives exactly as long, windows
  -- and all, as before: if its whole life fits a `u64` and the two words have slots of their own,
  -- `timeout_with_windows` gives the same before and after.
  pub timeout_with_windows-use_window :
      (t : RetryableRecord) (s : State)
      → AreDistinct t.timeout_windows_left t.timeout
      → 0 < held J L s t.timeout_windows_left
      → held J L s t.timeout + held J L s t.timeout_windows_left * retryable_lifetime_seconds
        < 2 ^ 64
      → ((use_window J t (held J L s t.timeout) (held J L s t.timeout_windows_left)
            >> timeout_with_windows J t)
          s).0
        ≡ (timeout_with_windows J t s).0
  unfolding use_window
  timeout_with_windows-use_window t s apart some_left fits =
      simp (set_u64_lem J L, ◌>>=◌)
        (timeout_with_windows_lem t s1 (omega (arith, later)) (omega (arith, fewer))
          ∙ ap ok (omega (arith, later, fewer))
          ∙ sym (timeout_with_windows_lem t s (omega arith) (omega arith)))
    where
      s1 : State
      s1 = written J L t.timeout_windows_left (held J L s t.timeout_windows_left - 1) (
          written J L t.timeout
            (saturating_add 64 (held J L s t.timeout) retryable_lifetime_seconds) s)

      later :
          held J L s1 t.timeout
          ≡ saturating_add 64 (held J L s t.timeout) retryable_lifetime_seconds
      later = simp (value-stored, apart, eq_self)

      fewer : held J L s1 t.timeout_windows_left ≡ held J L s t.timeout_windows_left - 1
      fewer = simp (value-stored, eq_self)
