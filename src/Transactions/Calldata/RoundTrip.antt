-- ===== src/Transactions/Calldata/RoundTrip.antt =====
-- The calldata that encodes a call decodes to the call.
use arb_revm.Base.{
  List, Option, [], ap, append_assoc, arith, drop, length, length-append, le→leb, le→ltb, lt→ltb,
  ne→eq_false, none, refl, saturating_add, some, suc, take, unwrap_or, zero, ℕ, ◌*◌, ◌++◌, ◌+◌, ◌<◌,
  ◌^◌, ◌∙◌, ◌∷◌, ◌≡◌, ◌≤◌,
}
use arb_revm.Base.Bytes.{be_bytes, from_be, length-be_bytes, from_be-be_bytes}
use arb_revm.Storage.Packed.{slice}
use arb_revm.Storage.Space.{address_of_word}
use arb_revm.Journal.{ok, ◌>>=◌}
use arb_revm.Transactions.Calldata.{
  spell_words, read_word, word_to_optional_address, SubmitRetryableCall, head_of, decode_data,
  padding, word_to_u64, decode_submit_retryable_calldata, decode_args,
  encode_submit_retryable_calldata, submit_retryable_selector,
}

abbrev nth : List ℕ → ℕ → ℕ
nth [] i = 0
nth (w ∷ ws) zero = w
nth (w ∷ ws) (suc i) = nth ws i

take_front : (xs ys : List ℕ) (n : ℕ) → length xs ≡ n → take n (xs ++ ys) ≡ xs
take_front [] ys zero h = refl
take_front [] ys (suc n) h = absurd (omega arith)
take_front (x ∷ xs) ys zero h = absurd (omega arith)
take_front (x ∷ xs) ys (suc n) h = ap (λ t. x ∷ t) (take_front xs ys n (omega arith))

drop_front :
    (xs ys : List ℕ) (n m k : ℕ) → length xs ≡ n → k ≡ n + m → drop k (xs ++ ys) ≡ drop m ys
drop_front [] ys n m k h e = ap (λ j. drop j ys) (omega (arith, h, e))
drop_front (x ∷ xs) ys zero m k h e = absurd (omega arith)
drop_front (x ∷ xs) ys (suc n) m zero h e = absurd (omega arith)
drop_front (x ∷ xs) ys (suc n) m (suc k) h e = drop_front xs ys n m k (omega arith) (omega arith)

length-spell_words : (ws : List ℕ) → length (spell_words ws) ≡ length ws * 32
unfolding spell_words
length-spell_words [] = refl
length-spell_words (w ∷ ws) = omega (
  arith,
  length-append (be_bytes 32 w) (spell_words ws),
  length-be_bytes 32 w,
  length-spell_words ws,
)

-- The word at an index of the head.
slice-spell_words :
    (ws rest : List ℕ) (i k : ℕ)
    → i < length ws
    → k ≡ i * 32
    → slice (spell_words ws ++ rest) k 32 ≡ be_bytes 32 (nth ws i)
unfolding spell_words
slice-spell_words [] rest i k h e = absurd (omega arith)
slice-spell_words (w ∷ ws) rest zero k h e =
    ap (λ j. slice ((be_bytes 32 w ++ spell_words ws) ++ rest) j 32) {x = k} {y = 0} (omega arith)
    ∙ ap (take 32) (append_assoc (be_bytes 32 w) (spell_words ws) rest)
    ∙ take_front (be_bytes 32 w) (spell_words ws ++ rest) 32 (length-be_bytes 32 w)
slice-spell_words (w ∷ ws) rest (suc i) k h e =
    ap (λ t. take 32 (drop k t)) (append_assoc (be_bytes 32 w) (spell_words ws) rest)
    ∙ ap (take 32) (
        drop_front (be_bytes 32 w) (spell_words ws ++ rest) 32 (i * 32) k (length-be_bytes 32 w)
          (omega arith))
    ∙ slice-spell_words ws rest i (i * 32) (omega arith) refl

length_args : (ws rest : List ℕ) → length (spell_words ws ++ rest) ≡ length ws * 32 + length rest
length_args ws rest = omega (arith, length-append (spell_words ws) rest, length-spell_words ws)

read_word-spell_words :
    {S : Type 0} (ws rest : List ℕ) (i : ℕ) (s : S)
    → i < length ws
    → nth ws i < 2 ^ 256
    → read_word (spell_words ws ++ rest) i s ≡ (ok (nth ws i), s)
unfolding read_word
read_word-spell_words ws rest i s h fits =
    rw (le→leb (i * 32 + 32) (length (spell_words ws ++ rest)) (omega (arith, length_args ws rest)))
      (ap (λ v. (ok v, s))
        (ap from_be (slice-spell_words ws rest i (i * 32) h refl)
          ∙ from_be-be_bytes 32 (nth ws i) fits))

-- A recipient that calldata can name: the zero address stands for a creation.
abbrev pub IsRecipient : Option ℕ → Type 0
IsRecipient none = Unit {0}
IsRecipient (some a) = (0 < a) × (a < 2 ^ 160)

-- The fields are in their types.
pub record IsCall (call : SubmitRetryableCall) : Type 0 where
  pub request_id_fits : call.request_id < 2 ^ 256
  pub l1_base_fee_fits : call.l1_base_fee < 2 ^ 256
  pub deposit_value_fits : call.deposit_value < 2 ^ 256
  pub retry_value_fits : call.retry_value < 2 ^ 256
  pub gas_fee_cap_fits : call.gas_fee_cap < 2 ^ 256
  pub gas_limit_fits : call.gas_limit < 2 ^ 64
  pub max_submission_fee_fits : call.max_submission_fee < 2 ^ 256
  pub fee_refund_address_fits : call.fee_refund_address < 2 ^ 160
  pub beneficiary_fits : call.beneficiary < 2 ^ 160
  pub retry_to_fits : IsRecipient call.retry_to
  -- the offset of the data and its length stay in a `usize`
  pub retry_data_fits : length call.retry_data + 384 < 2 ^ 64

recipient_fits : (to : Option ℕ) → IsRecipient to → unwrap_or to 0 < 2 ^ 160
recipient_fits none h = omega arith
recipient_fits (some a) (h, k) = k

recipient_round_trip :
    (to : Option ℕ) → IsRecipient to → word_to_optional_address (unwrap_or to 0) ≡ to
unfolding word_to_optional_address
recipient_round_trip none h = refl
recipient_round_trip (some a) (h, k) =
    rw (ne→eq_false a 0 (λ e. omega arith)) (ap some (omega arith))

address_fits : (a : ℕ) → a < 2 ^ 160 → address_of_word a ≡ a
address_fits a h = omega arith

no_overflow : (n : ℕ) → n + 384 < 2 ^ 64 → saturating_add 64 384 n ≡ 384 + n
no_overflow n h = omega arith

module _ {S : Type 0} (call : SubmitRetryableCall) (is : IsCall call) (s : S) where
  abbrev data_and_padding : List ℕ
  data_and_padding = call.retry_data ++ padding (length call.retry_data)

  abbrev args : List ℕ
  args = spell_words (head_of call) ++ data_and_padding

  length_lem : length args ≡ 384 + length data_and_padding
  unfolding head_of
  length_lem = omega (arith, length_args (head_of call) data_and_padding)

  word_lem :
      (i : ℕ)
      → i < 12
      → nth (head_of call) i < 2 ^ 256
      → read_word args i s ≡ (ok (nth (head_of call) i), s)
  unfolding head_of
  word_lem i h fits = read_word-spell_words (head_of call) data_and_padding i s (omega arith) fits

  decode_data_lem : decode_data args 352 s ≡ (ok call.retry_data, s)
  unfolding decode_data word_to_u64 head_of
  decode_data_lem =
      let n : ℕ = length call.retry_data in
      let total : n ≤ length data_and_padding =
        omega (arith, length-append call.retry_data (padding n)) in
      let len_word : from_be (slice args 352 32) ≡ n =
        ap from_be (slice-spell_words (head_of call) data_and_padding 11 352 (omega arith) refl)
        ∙ from_be-be_bytes 32 n (omega (arith, is.retry_data_fits)) in
      let bytes : slice args 384 n ≡ call.retry_data =
        ap (take n) (
          drop_front (spell_words (head_of call)) data_and_padding 384 0 384
            (omega (arith, length-spell_words (head_of call))) refl)
        ∙ take_front call.retry_data (padding n) n refl in
      simp
        (
          le→ltb (length args) 384 (omega (arith, length_lem)),
          len_word,
          lt→ltb n (2 ^ 64) (omega (arith, is.retry_data_fits)),
          no_overflow n is.retry_data_fits,
          le→ltb (length args) (384 + n) (omega (arith, length_lem, total)),
          bytes,
          ◌>>=◌,
        )
        refl

  decode_args_lem : decode_args args s ≡ (ok call, s)
  unfolding decode_args word_to_u64 head_of
  decode_args_lem =
      simp
        (
          word_lem 0 (omega arith) is.request_id_fits,
          word_lem 1 (omega arith) is.l1_base_fee_fits,
          word_lem 2 (omega arith) is.deposit_value_fits,
          word_lem 3 (omega arith) is.retry_value_fits,
          word_lem 4 (omega arith) is.gas_fee_cap_fits,
          word_lem 5 (omega arith) (omega (arith, is.gas_limit_fits)),
          lt→ltb call.gas_limit (2 ^ 64) is.gas_limit_fits,
          word_lem 6 (omega arith) is.max_submission_fee_fits,
          word_lem 7 (omega arith) (omega (arith, is.fee_refund_address_fits)),
          word_lem 8 (omega arith) (omega (arith, is.beneficiary_fits)),
          word_lem 9 (omega arith) (omega (arith, recipient_fits call.retry_to is.retry_to_fits)),
          word_lem 10 (omega arith) (omega arith),
          decode_data_lem,
          recipient_round_trip call.retry_to is.retry_to_fits,
          address_fits call.fee_refund_address is.fee_refund_address_fits,
          address_fits call.beneficiary is.beneficiary_fits,
          ◌>>=◌,
        )
        refl

  -- The calldata that encodes a call decodes to the call, if its fields are in their types, its
  -- recipient is not the zero address, and its data leaves room in a `usize`.
  pub decode-encode_submit_retryable_calldata :
      decode_submit_retryable_calldata (encode_submit_retryable_calldata call) s ≡ (ok call, s)
  unfolding decode_submit_retryable_calldata encode_submit_retryable_calldata
  decode-encode_submit_retryable_calldata =
      simp (le→ltb (length (submit_retryable_selector ++ args)) 388 (omega (arith, length_lem)))
        decode_args_lem
