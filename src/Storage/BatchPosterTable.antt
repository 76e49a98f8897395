-- ===== src/Storage/BatchPosterTable.antt =====
-- `BatchPosterTable` of crates/arb-revm/src/storage/batch_poster_table.rs: what each batch poster
-- is owed, whom to pay for it, and the total of it all.
pub mod Funds
use arb_revm.Base.{
  Bool, Bool-cases, List, Option, Option-cases, [], ap, append-nil, append_assoc, ap₂, arith,
  bit_and, bit_or, bit_xor, checked_add, checked_mul, checked_sub, dec_le, dec_lt, drop, eq_self,
  eq_true→eq, false, fun_ext, if◌then◌else◌, inl, inr, leb, length, length-append, le→leb, le→ltb,
  ltb, ltb→lt, lt→ltb, min, ne→eq_false, none, not, refl, replicate, saturating_add, saturating_mul,
  some, subst, suc, sym, take, true, u256_max, u64_max, unwrap_or, zero, ℕ, ℕ_discrete, ◌%◌, ◌&&◌,
  ◌*◌, ◌++◌, ◌+◌, ◌-◌, ◌/◌, ◌<◌, ◌==◌, ◌^◌, ◌||◌, ◌↔◌, ◌∎, ◌∙◌, ◌∷◌, ◌≡◌, ◌≡⟨◌⟩◌, ◌≢◌, ◌≤◌, ◌⊎◌,
}
use arb_revm.Base.Bytes.{be_bytes}
use arb_revm.Storage.Space.{
  StorageSpace, StorageSlot, storage_backed, open_subspace, open_subspace_with_key,
}
use arb_revm.Storage.AddressSet.{AddressSet, open_address_set, is_member, add}
use arb_revm.Storage.Slot.{get_u256, set_u256, get_address, set_address}
use arb_revm.Journal.{ArbJournal, M, pure, raise, already_registered, not_registered, ◌>>=◌, ◌>>◌}

pub record BatchPosterTable : Type 0 where
  pub poster_info : StorageSpace
  pub poster_address_set : AddressSet
  pub total_funds_due : StorageSlot

pub record BatchPosterState : Type 0 where
  pub funds_due : StorageSlot
  pub pay_to : StorageSlot
  pub posters_table : BatchPosterTable

module _ (J : ArbJournal) where
  open J use {State}

  abbrev pub open_batch_poster_table : StorageSpace → BatchPosterTable
  open_batch_poster_table storage = record {
    poster_info = open_subspace_with_key J storage 1;
    poster_address_set = open_address_set J (open_subspace_with_key J storage 0);
    total_funds_due = storage_backed J storage 0;
  }

  unfoldable pub total_funds_due : BatchPosterTable → M State ℕ
  total_funds_due t = get_u256 J t.total_funds_due

  abbrev pub poster_state : BatchPosterTable → StorageSpace → BatchPosterState
  poster_state t poster_storage = record {
    funds_due = storage_backed J poster_storage 0;
    pay_to = storage_backed J poster_storage 1;
    posters_table = t;
  }

  unfoldable pub internal_open : BatchPosterTable → ℕ → BatchPosterState
  internal_open t poster = poster_state t (open_subspace J t.poster_info (be_bytes 20 poster))

  unfoldable pub add_poster : BatchPosterTable → ℕ → ℕ → M State BatchPosterState
  add_poster t poster pay_to = do
    known ← is_member J t.poster_address_set poster
    let state = internal_open t poster
    if known then raise already_registered else (do
      set_u256 J state.funds_due 0
      set_address J state.pay_to pay_to
      add J t.poster_address_set poster
      pure state)

  unfoldable pub open_poster_checked : BatchPosterTable → ℕ → Bool → M State BatchPosterState
  open_poster_checked t poster create_if_missing = do
    known ← is_member J t.poster_address_set poster
    if known
        then pure (internal_open t poster)
        else if create_if_missing
        then add_poster t poster poster
        else raise not_registered

  unfoldable pub funds_due : BatchPosterState → M State ℕ
  funds_due p = get_u256 J p.funds_due

  unfoldable pub pay_to : BatchPosterState → M State ℕ
  pay_to p = get_address J p.pay_to

  unfoldable pub set_pay_to : BatchPosterState → ℕ → M State (Unit {0})
  set_pay_to p to = set_address J p.pay_to to

  -- The total after a poster's due goes from `prev` to `due`.
  abbrev pub next_total : ℕ → ℕ → ℕ → ℕ
  next_total total prev due =
      if ltb (total + due) (2 ^ 256)
      then unwrap_or (checked_sub (total + due) prev) u256_max
      else u256_max

  unfoldable pub set_funds_due : BatchPosterState → ℕ → M State (Unit {0})
  set_funds_due p due = do
    prev ← get_u256 J p.funds_due
    total ← get_u256 J p.posters_table.total_funds_due
    set_u256 J p.posters_table.total_funds_due (next_total total prev due)
    set_u256 J p.funds_due due
