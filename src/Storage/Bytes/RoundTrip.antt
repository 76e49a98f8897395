-- ===== src/Storage/Bytes/RoundTrip.antt =====
-- A byte string that was written reads back.
use arb_revm.Base.{
  List, [], ap, ap₂, arith, dec_le, drop, eq_self, if◌then◌else◌, length, lt→ltb, ne→eq_false, refl,
  saturating_add, subst, suc, sym, take, u64_max, zero, ℕ, ◌%◌, ◌++◌, ◌+◌, ◌-◌, ◌/◌, ◌<◌, ◌==◌, ◌^◌,
  ◌∙◌, ◌∷◌, ◌≡◌, ◌≢◌, ◌≤◌,
}
use arb_revm.Base.Bytes.{be_bytes, from_be}
use arb_revm.Journal.{ArbJournal, Lawful, ok, ◌>>=◌, ◌>>◌}
use arb_revm.Storage.Space.{StorageSpace, slot_for_hash}
use arb_revm.Storage.Bytes.{chunks, read_words, write_chunks, set_fresh, get, size}
use arb_revm.Storage.Bytes.Spelling.{
  AreBytes, AreBytes-take, AreBytes-drop, be_bytes-from_be, drop-be_bytes,
}
use arb_revm.Storage.Space.Apart.{AreApart, slots_eq}

-- The words from `off` on spell the chunks.
pub Holds : (ℕ → ℕ) → ℕ → List (List ℕ) → Type 0
Holds f off [] = Unit {0}
Holds f off (c ∷ cs) = (f off ≡ from_be c) × Holds f (off + 1) cs

Holds-same :
    (f g : ℕ → ℕ) (off : ℕ) (cs : List (List ℕ))
    → ((i : ℕ) → f i ≡ g i)
    → Holds f off cs
    → Holds g off cs
unfolding Holds
Holds-same f g off [] e h = tt
Holds-same f g off (c ∷ cs) e (h, hs) = (sym (e off) ∙ h, Holds-same f g (off + 1) cs e hs)

length-take : (n : ℕ) (bs : List ℕ) → n ≤ length bs → length (take n bs) ≡ n
length-take zero bs h = refl
length-take (suc n) [] h = absurd (omega arith)
length-take (suc n) (b ∷ bs) h = omega (arith, length-take n bs (omega arith))

length-drop : (n : ℕ) (bs : List ℕ) → length (drop n bs) ≡ length bs - n
length-drop zero bs = omega arith
length-drop (suc n) [] = omega arith
length-drop (suc n) (b ∷ bs) = omega (arith, length-drop n bs)

take-all : (n : ℕ) (bs : List ℕ) → length bs ≤ n → take n bs ≡ bs
take-all zero [] h = refl
take-all zero (b ∷ bs) h = absurd (omega arith)
take-all (suc n) [] h = refl
take-all (suc n) (b ∷ bs) h = ap (λ t. b ∷ t) (take-all n bs (omega arith))

take-drop : (n : ℕ) (bs : List ℕ) → take n bs ++ drop n bs ≡ bs
take-drop zero bs = refl
take-drop (suc n) [] = refl
take-drop (suc n) (b ∷ bs) = ap (λ t. b ∷ t) (take-drop n bs)

-- There are no more chunks than bytes.
length-chunks : (fuel : ℕ) (bs : List ℕ) → length (chunks fuel bs) ≤ fuel
unfolding chunks
length-chunks zero bs = omega arith
length-chunks (suc fuel) [] = omega arith
length-chunks (suc fuel) (b ∷ bs) = omega (arith, length-chunks fuel (drop 32 (b ∷ bs)))

module _ (J : ArbJournal) (L : Lawful J) (sp : StorageSpace) where
  open J use {State}
  open L use {value, value-seen, value-stored, read_lem, write_lem}

  abbrev word : State → ℕ → ℕ
  word s i = value s sp.account (slot_for_hash J sp i)

  abbrev seen_at : ℕ → State → State
  seen_at off s = L.seen sp.account (slot_for_hash J sp off) s

  -- A whole word, and what is read after it.
  read_whole :
      (rounds rest off : ℕ) (s : State) (front tail : List ℕ)
      → off < u64_max
      → be_bytes 32 (word s off) ≡ front
      → (read_words J sp rounds rest (off + 1) (seen_at off s)).0 ≡ ok tail
      → (read_words J sp (suc rounds) rest off s).0 ≡ ok (front ++ tail)
  unfolding read_words
  read_whole rounds rest off s front tail room whole after =
      simp (read_lem, next, ◌>>=◌, after, whole) refl
    where
      next : saturating_add 64 off 1 ≡ off + 1
      next = ground arith

  -- The last word, of which `rest` bytes are used.
  read_rest :
      (rest off : ℕ) (s : State)
      → rest ≢ 0
      → (read_words J sp 0 rest off s).0 ≡ ok (drop (32 - rest) (be_bytes 32 (word s off)))
  unfolding read_words
  read_rest rest off s some_left = simp (read_lem, ne→eq_false rest 0 some_left, ◌>>=◌)

  -- Words that spell the chunks of a byte string read as the byte string.
  read_words_lem :
      (fuel : ℕ) (bs : List ℕ) (off : ℕ) (s : State)
      → length bs ≤ fuel
      → AreBytes bs
      → off + fuel < u64_max
      → Holds (word s) off (chunks fuel bs)
      → (read_words J sp (length bs / 32) (length bs % 32) off s).0 ≡ ok bs
  unfolding chunks Holds
  read_words_lem fuel [] off s enough bytes room h = unfold read_words in refl
  read_words_lem zero (b ∷ bs) off s enough bytes room h = absurd (omega arith)
  read_words_lem (suc fuel) (b ∷ bs) off s enough bytes room (here, there) =
      let all : List ℕ = b ∷ bs in
      elim (dec_le 32 (length all)) [
        | yes full ↦
            let rounds : length all / 32 ≡ suc (length (drop 32 all) / 32) =
              omega (arith, length-drop 32 all) in
            let rest : length all % 32 ≡ length (drop 32 all) % 32 =
              omega (arith, length-drop 32 all) in
            ap₂ (λ n r. (read_words J sp n r off s).0) rounds rest
            ∙ read_whole (length (drop 32 all) / 32) (length (drop 32 all) % 32) off s (take 32 all)
                (drop 32 all) (omega arith)
                (ap (be_bytes 32) here
                  ∙ be_bytes-from_be 32 (take 32 all) (AreBytes-take 32 all bytes)
                      (length-take 32 all full))
                (read_words_lem fuel (drop 32 all) (off + 1) (seen_at off s)
                  (omega (arith, length-drop 32 all)) (AreBytes-drop 32 all bytes) (omega arith)
                  (Holds-same (word s) (word (seen_at off s)) (off + 1) (chunks fuel (drop 32 all))
                    (λ i. sym (value-seen _ _ s _ _)) there))
            ∙ ap ok (take-drop 32 all)
        | no short ↦
            let rounds : length all / 32 ≡ 0 = omega arith in
            let rest : length all % 32 ≡ length all = omega arith in
            ap₂ (λ n r. (read_words J sp n r off s).0) rounds rest
            ∙ read_rest (length all) off s (λ e. omega arith)
            ∙ ap ok (
                drop-be_bytes 32 (length all) (32 - length all) (word s off) (omega arith)
                ∙ ap (be_bytes (length all)) (here ∙ ap from_be (take-all 32 all (omega arith)))
                ∙ be_bytes-from_be (length all) all bytes refl)
      ]

  module _ (apart : AreApart J (2 ^ 64) sp) where
    abbrev stored_at : ℕ → ℕ → State → State
    stored_at off v s = L.stored sp.account (slot_for_hash J sp off) v s

    word-stored :
        (i j v : ℕ) (s : State)
        → i < 2 ^ 64
        → j < 2 ^ 64
        → word (stored_at i v s) j ≡ (if i == j then v else word s j)
    word-stored i j v s hi hj = simp (value-stored, eq_self, slots_eq J (2 ^ 64) sp apart i j hi hj)

    -- What writing chunks from `off` on has done.
    record Written (cs : List (List ℕ)) (off : ℕ) (s : State) : Type 0 where
      done : (write_chunks J sp cs off s).0 ≡ ok tt
      below : (j : ℕ) → j < off → word (write_chunks J sp cs off s).1 j ≡ word s j
      held_there : Holds (word (write_chunks J sp cs off s).1) off cs

    write_chunks_step :
        (c : List ℕ) (cs : List (List ℕ)) (off : ℕ) (s : State)
        → off < u64_max
        → write_chunks J sp (c ∷ cs) off s
          ≡ write_chunks J sp cs (off + 1) (stored_at off (from_be c) s)
    unfolding write_chunks
    write_chunks_step c cs off s room = simp (write_lem, next, ◌>>=◌) refl
      where
        next : saturating_add 64 off 1 ≡ off + 1
        next = ground arith

    write_chunks_lem :
        (cs : List (List ℕ)) (off : ℕ) (s : State) → off + length cs < u64_max → Written cs off s
    unfolding Holds
    write_chunks_lem [] off s room =
        unfold write_chunks in record { done = refl; below = λ j h. refl; held_there = tt }
    write_chunks_lem (c ∷ cs) off s room =
        let s1 : State = stored_at off (from_be c) s in
        let rest : Written cs (off + 1) s1 = write_chunks_lem cs (off + 1) s1 (omega arith) in
        let step = write_chunks_step c cs off s (omega arith) in
        record {
          done = ap (λ t. t.0) step ∙ rest.done;
          below = λ j h.
              ap (λ t. word t.1 j) step
              ∙ rest.below j (omega arith)
              ∙ ground (arith, word-stored off j (from_be c) s (omega arith) (omega arith));
          held_there = (
            ap (λ t. word t.1 off) step
                ∙ rest.below off (omega arith)
                ∙ ground (arith, word-stored off off (from_be c) s (omega arith) (omega arith)),
            subst (λ t. Holds (word t.1) (off + 1) cs) (sym step) rest.held_there,
          );
        }

    -- A string of bytes that is written to a space with slots of its own, whatever stood there,
    -- reads back, if its length is below the last numbers of a `u64`.
    pub get-set_fresh :
        (bytes : List ℕ) (s : State)
        → AreBytes bytes
        → length bytes + 2 < u64_max
        → ((set_fresh J sp bytes >> get J sp) s).0 ≡ ok bytes
    unfolding set_fresh get size
    get-set_fresh bytes s are_bytes room =
        let s1 : State = stored_at 0 (length bytes) s in
        let done : Written (chunks (length bytes) bytes) 1 s1 =
          write_chunks_lem (chunks (length bytes) bytes) 1 s1
            (omega (arith, length-chunks (length bytes) bytes)) in
        let s2 : State = (write_chunks J sp (chunks (length bytes) bytes) 1 s1).1 in
        let size_there : word s2 0 ≡ length bytes =
          done.below 0 (omega arith)
          ∙ ground (arith, word-stored 0 0 (length bytes) s (omega arith) (omega arith)) in
        simp
          (
            write_lem,
            done.done,
            read_lem,
            size_there,
            lt→ltb (length bytes) (2 ^ 64) (omega arith),
            ◌>>=◌,
          )
          (read_words_lem (length bytes) bytes 1 (seen_at 0 s2) (omega arith) are_bytes
            (omega arith)
            (Holds-same (word s2) (word (seen_at 0 s2)) 1 (chunks (length bytes) bytes)
              (λ i. sym (value-seen _ _ s2 _ _)) done.held_there))
