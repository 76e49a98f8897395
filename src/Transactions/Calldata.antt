-- ===== src/Transactions/Calldata.antt =====
-- The calldata of a submission: `SubmitRetryableCall`, its decoder and its encoder in
-- crates/arb-revm/src/submit_retryable_tx.rs.
pub mod RoundTrip
use arb_revm.Base.{
  Bool, Bool-cases, List, Option, Option-cases, [], ap, append-nil, append_assoc, ap₂, arith,
  bit_and, bit_or, bit_xor, checked_add, checked_mul, checked_sub, dec_le, dec_lt, drop, eq_self,
  eq_true→eq, false, fun_ext, if◌then◌else◌, inl, inr, leb, length, length-append, le→leb, le→ltb,
  ltb, ltb→lt, lt→ltb, map_option, min, ne→eq_false, none, not, refl, replicate, saturating_add,
  saturating_mul, some, subst, suc, sym, take, true, u256_max, u64_max, unwrap_or, zero, ℕ,
  ℕ_discrete, ◌%◌, ◌&&◌, ◌*◌, ◌++◌, ◌+◌, ◌-◌, ◌/◌, ◌<◌, ◌==◌, ◌^◌, ◌||◌, ◌↔◌, ◌∎, ◌∙◌, ◌∷◌, ◌≡◌,
  ◌≡⟨◌⟩◌, ◌≢◌, ◌≤◌, ◌⊎◌,
}
use arb_revm.Base.Bytes.{be_bytes, from_be}
use arb_revm.Storage.Packed.{slice}
use arb_revm.Storage.Space.{address_of_word}
use arb_revm.Journal.{M, pure, raise, conversion, panic, bad_calldata, ◌>>=◌, ◌>>◌}

abbrev pub word_size : ℕ
word_size = 32

abbrev pub selector_size : ℕ
selector_size = 4

abbrev pub submit_retryable_selector : List ℕ
submit_retryable_selector = 0xC9 ∷ 0xF9 ∷ 0x5D ∷ 0x32 ∷ []

abbrev pub head_words : ℕ
head_words = 11

abbrev pub min_calldata_len : ℕ
min_calldata_len = selector_size + (head_words + 1) * word_size

-- A recipient of none is a creation.
pub record SubmitRetryableCall : Type 0 where
  pub request_id : ℕ
  pub l1_base_fee : ℕ
  pub deposit_value : ℕ
  pub retry_value : ℕ
  pub gas_fee_cap : ℕ
  pub gas_limit : ℕ
  pub max_submission_fee : ℕ
  pub fee_refund_address : ℕ
  pub beneficiary : ℕ
  pub retry_to : Option ℕ
  pub retry_data : List ℕ

abbrev pub equal_bytes : List ℕ → List ℕ → Bool
equal_bytes [] [] = true
equal_bytes [] (c ∷ cs) = false
equal_bytes (b ∷ bs) [] = false
equal_bytes (b ∷ bs) (c ∷ cs) = (b == c) && equal_bytes bs cs

-- `word`, as the number it spells.
unfoldable pub read_word : {S : Type 0} → List ℕ → ℕ → M S ℕ
read_word args index =
    if leb (index * word_size + word_size) (length args)
    then pure (from_be (slice args (index * word_size) word_size))
    else raise bad_calldata

-- `word_to_u64`, and `word_to_usize` of a target of 64 bits.
unfoldable pub word_to_u64 : {S : Type 0} → ℕ → M S ℕ
word_to_u64 word = if ltb word (2 ^ 64) then pure word else raise conversion

unfoldable pub word_to_optional_address : ℕ → Option ℕ
word_to_optional_address word = if word == 0 then none else some (address_of_word word)

-- The dynamic bytes at an offset. The sum of an offset and a word's size may leave a `usize`: the
-- slice that follows then panics.
unfoldable pub decode_data : {S : Type 0} → List ℕ → ℕ → M S (List ℕ)
decode_data args offset =
    if not (offset % word_size == 0) || ltb offset (head_words * word_size)
    then raise bad_calldata
    else if leb (2 ^ 64) (offset + word_size)
    then raise panic
    else if ltb (length args) (offset + word_size)
    then raise bad_calldata
    else (do
      data_len ← word_to_u64 (from_be (slice args offset word_size))
      if ltb (length args) (saturating_add 64 (offset + word_size) data_len)
          then raise bad_calldata
          else pure (slice args (offset + word_size) data_len))

unfoldable pub decode_args : {S : Type 0} → List ℕ → M S SubmitRetryableCall
decode_args args = do
  request_id ← read_word args 0
  l1_base_fee ← read_word args 1
  deposit_value ← read_word args 2
  retry_value ← read_word args 3
  gas_fee_cap ← read_word args 4
  gas_word ← read_word args 5
  gas_limit ← word_to_u64 gas_word
  max_submission_fee ← read_word args 6
  fee_refund_word ← read_word args 7
  beneficiary_word ← read_word args 8
  to_word ← read_word args 9
  offset_word ← read_word args 10
  offset ← word_to_u64 offset_word
  bytes ← decode_data args offset
  pure (record {
    request_id = request_id;
    l1_base_fee = l1_base_fee;
    deposit_value = deposit_value;
    retry_value = retry_value;
    gas_fee_cap = gas_fee_cap;
    gas_limit = gas_limit;
    max_submission_fee = max_submission_fee;
    fee_refund_address = address_of_word fee_refund_word;
    beneficiary = address_of_word beneficiary_word;
    retry_to = word_to_optional_address to_word;
    retry_data = bytes;
  })

unfoldable pub decode_submit_retryable_calldata : {S : Type 0} → List ℕ → M S SubmitRetryableCall
decode_submit_retryable_calldata input =
    if ltb (length input) min_calldata_len
    then raise bad_calldata
    else if not (equal_bytes (take selector_size input) submit_retryable_selector)
    then raise bad_calldata
    else decode_args (drop selector_size input)

-- The words of the head, and the length of the data after them.
unfoldable pub head_of : SubmitRetryableCall → List ℕ
head_of call =
    call.request_id
    ∷ call.l1_base_fee
    ∷ call.deposit_value
    ∷ call.retry_value
    ∷ call.gas_fee_cap
    ∷ call.gas_limit
    ∷ call.max_submission_fee
    ∷ call.fee_refund_address
    ∷ call.beneficiary
    ∷ unwrap_or call.retry_to 0
    ∷ head_words * word_size
    ∷ length call.retry_data
    ∷ []

unfoldable pub spell_words : List ℕ → List ℕ
spell_words [] = []
spell_words (w ∷ ws) = be_bytes 32 w ++ spell_words ws

unfoldable pub padding : ℕ → List ℕ
padding len =
    let remainder = len % word_size in
    if remainder == 0 then [] else replicate (word_size - remainder) 0

unfoldable pub encode_submit_retryable_calldata : SubmitRetryableCall → List ℕ
encode_submit_retryable_calldata call =
    submit_retryable_selector
    ++ (spell_words (head_of call) ++ (call.retry_data ++ padding (length call.retry_data)))
