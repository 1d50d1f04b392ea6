-- ===== src/Fat/Long/Slots.antt =====
-- The entries of a long name as slots of 32 bytes.
use Prim.Native.Nat.{bit_and, bit_or}
use vyper.Prelude.{
  ℕ, zero, suc, ◌+◌, ◌-◌, ◌^◌, ◌≡◌, ◌<◌, refl, ap, ◌∙◌, Bool, true, false, not, ◌&&◌, some, List,
  [], ◌∷◌, ◌++◌, if◌then◌else◌, ◌==◌, ltb, leb, length, get_or, set, take, drop, replicate, from_le,
  to_le, arith, from_le-to_le, length-append, length-replicate, length-take, length-set,
  bit_or-field, bit_or_comm, bit_and-pow-zero, digit,
}
use vyper.Fat.Long.{LfnEntry, parse, serialize, is_last, words_to_le, words_of, fill, new}

abbrev pub AllWords : List ℕ → Type 0
AllWords [] = Unit
AllWords (w ∷ ws) = (w < 2 ^ 16) × AllWords ws

-- The fields of an entry fill a slot.
pub record IsLong (self : LfnEntry) : Type 0 where
  pub sizes : (length self.name1 ≡ 5) × (length self.name2 ≡ 6) × (length self.name3 ≡ 2)
  pub words : AllWords self.name1 × AllWords self.name2 × AllWords self.name3
  pub marks : (self.attr ≡ 0x0F) × (self.entry_type ≡ 0) × (self.cluster ≡ 0)

abbrev read_words : List ℕ → List ℕ
read_words [] = []
read_words (w ∷ ws) = from_le (to_le 2 w) ∷ read_words ws

read_words_lem : (ws : List ℕ) → AllWords ws → read_words ws ≡ ws
read_words_lem [] h = refl
read_words_lem (w ∷ ws) h = cc (from_le-to_le 2 w h.0, read_words_lem ws h.1)

parse_parts :
    (seq checksum : ℕ) (name1 name2 name3 : List ℕ)
    → length name1 ≡ 5
    → length name2 ≡ 6
    → length name3 ≡ 2
    → parse (
        seq
        ∷ (words_to_le name1
            ++ (0x0F ∷ 0 ∷ checksum ∷ (words_to_le name2 ++ (0 ∷ 0 ∷ words_to_le name3)))))
      ≡ some (record {
        seq = seq;
        name1 = read_words name1;
        attr = 0x0F;
        entry_type = 0;
        checksum = checksum;
        name2 = read_words name2;
        cluster = 0;
        name3 = read_words name3;
      })
unfolding parse
parse_parts seq checksum (a ∷ b ∷ c ∷ d ∷ e ∷ []) (f ∷ g ∷ h ∷ i ∷ j ∷ k ∷ []) (l ∷ m ∷ []) p q r =
    refl
parse_parts seq checksum name1 name2 name3 p q r = absurd (omega arith)

pub parse-serialize : (self : LfnEntry) → IsLong self → parse (serialize self) ≡ some self
unfolding serialize
parse-serialize self h =
    parse_parts self.seq self.checksum self.name1 self.name2 self.name3 h.sizes.0 h.sizes.1
      h.sizes.2
    ∙ cc (
      read_words_lem self.name1 h.words.0,
      read_words_lem self.name2 h.words.1,
      read_words_lem self.name3 h.words.2,
      h.marks.0,
      h.marks.1,
      h.marks.2,
    )

slot_parts :
    (seq checksum : ℕ) (name1 name2 name3 : List ℕ)
    → length name1 ≡ 5
    → length name2 ≡ 6
    → length name3 ≡ 2
    → let slot =
        seq
        ∷ (words_to_le name1
            ++ (0x0F ∷ 0 ∷ checksum ∷ (words_to_le name2 ++ (0 ∷ 0 ∷ words_to_le name3)))) in
      (length slot ≡ 32) × (get_or slot 11 0 ≡ 0x0F)
slot_parts seq checksum (a ∷ b ∷ c ∷ d ∷ e ∷ []) (f ∷ g ∷ h ∷ i ∷ j ∷ k ∷ []) (l ∷ m ∷ []) p q r =
    (refl, refl)
slot_parts seq checksum name1 name2 name3 p q r = absurd (omega arith)

-- A slot of 32 bytes that is marked as a part of a long name.
pub serialize_slot :
    (self : LfnEntry)
    → IsLong self
    → (length (serialize self) ≡ 32)
      × (get_or (serialize self) 0 0 ≡ self.seq)
      × (get_or (serialize self) 11 0 ≡ 0x0F)
unfolding serialize
serialize_slot self h =
    let (a, b) =
      slot_parts self.seq self.checksum self.name1 self.name2 self.name3 h.sizes.0 h.sizes.1
        h.sizes.2 in
    (a, refl, b)

words_of-AllWords : (cs : List ℕ) → AllWords (words_of cs)
words_of-AllWords [] = tt
words_of-AllWords (c ∷ cs) = (omega arith, words_of-AllWords cs)

append-AllWords : (xs ys : List ℕ) → AllWords xs → AllWords ys → AllWords (xs ++ ys)
append-AllWords [] ys h k = k
append-AllWords (x ∷ xs) ys h k = (h.0, append-AllWords xs ys h.1 k)

replicate-AllWords : (n w : ℕ) → w < 2 ^ 16 → AllWords (replicate n w)
replicate-AllWords zero w h = tt
replicate-AllWords (suc n) w h = (h, replicate-AllWords n w h)

set-AllWords : (xs : List ℕ) (i : ℕ) → AllWords xs → AllWords (set xs i 0)
set-AllWords [] i h = tt
set-AllWords (x ∷ xs) zero h = (omega arith, h.1)
set-AllWords (x ∷ xs) (suc i) h = (h.0, set-AllWords xs i h.1)

length-words_of : (cs : List ℕ) → length (words_of cs) ≡ length cs
length-words_of [] = refl
length-words_of (c ∷ cs) = ap suc (length-words_of cs)

-- `n` words.
abbrev Words : ℕ → List ℕ → Type 0
Words n ws = (length ws ≡ n) × AllWords ws

fill-Words : (n : ℕ) (cs : List ℕ) → Words n (fill n cs)
unfolding fill
fill-Words n cs = (
  omega (
    arith,
    length-append (words_of (take n cs)) (replicate (n - length cs) 0xFFFF),
    length-words_of (take n cs),
    length-take n cs,
    length-replicate (n - length cs) (let all_ones : ℕ = 0xFFFF in all_ones),
  ),
  append-AllWords (words_of (take n cs)) (replicate (n - length cs) 0xFFFF)
      (words_of-AllWords (take n cs)) (replicate-AllWords (n - length cs) 0xFFFF (omega arith)),
)

set-Words : (n i : ℕ) (ws : List ℕ) → Words n ws → Words n (set ws i 0)
set-Words n i ws h = (length-set ws i 0 ∙ h.0, set-AllWords ws i h.1)

if-Words :
    (n : ℕ) (b : Bool) (xs ys : List ℕ) → Words n xs → Words n ys → Words n (if b then xs else ys)
if-Words n true xs ys h k = h
if-Words n false xs ys h k = k

ones-Words : (n : ℕ) → Words n (replicate n 0xFFFF)
ones-Words n = (
  length-replicate n (let all_ones : ℕ = 0xFFFF in all_ones),
  replicate-AllWords n 0xFFFF (omega arith),
)

pub new-IsLong : (seq checksum : ℕ) (cs : List ℕ) (last : Bool) → IsLong (new seq checksum cs last)
unfolding new
new-IsLong seq checksum cs last =
    let len = length cs in
    let second = if leb 5 len then fill 6 (drop 5 cs) else replicate 6 0xFFFF in
    let third = if leb 11 len then fill 2 (drop 11 cs) else replicate 2 0xFFFF in
    let second_words : Words 6 second =
      if-Words 6 (leb 5 len) _ _ (fill-Words 6 (drop 5 cs)) (ones-Words 6) in
    let third_words : Words 2 third =
      if-Words 2 (leb 11 len) _ _ (fill-Words 2 (drop 11 cs)) (ones-Words 2) in
    let one =
      if-Words 5 (ltb len 5) (set (fill 5 cs) len 0) (fill 5 cs)
        (set-Words 5 len (fill 5 cs) (fill-Words 5 cs)) (fill-Words 5 cs) in
    let two =
      if-Words 6 (leb 5 len && ltb len 11) (set second (len - 5) 0) second
        (set-Words 6 (len - 5) second second_words) second_words in
    let three =
      if-Words 2 (leb 11 len && ltb len 13) (set third (len - 11) 0) third
        (set-Words 2 (len - 11) third third_words) third_words in
    record {
      sizes = (one.0, two.0, three.0);
      words = (one.1, two.1, three.1);
      marks = (refl, refl, refl);
    }

-- The sequence number of an entry: below 64, with the bit 64 on the last.
pub new_seq :
    (seq checksum : ℕ) (cs : List ℕ) (last : Bool)
    → seq < 64
    → ((new seq checksum cs last).seq ≡ (if last then 64 + seq else seq))
      × (is_last (new seq checksum cs last) ≡ last)
      × ((new seq checksum cs last).checksum ≡ checksum)
unfolding new is_last
new_seq seq checksum cs true h =
    let e : bit_or seq 0x40 ≡ 64 + seq = bit_or_comm seq 64 ∙ bit_or-field 6 1 seq h in
    let one : digit 6 (64 + seq) ≡ 1 = omega arith in
    let set_bit : (bit_and (bit_or seq 0x40) 0x40 == 0) ≡ false =
      bit_and-pow-zero (bit_or seq 64) 6 ∙ (ap (λ n. digit 6 n == 0) e ∙ ap (λ n. n == 0) one) in
    (e, ap not set_bit, refl)
new_seq seq checksum cs false h =
    let none_set : digit 6 seq ≡ 0 = omega arith in
    let clear : (bit_and seq 0x40 == 0) ≡ true =
      bit_and-pow-zero seq 6 ∙ ap (λ n. n == 0) none_set in
    (refl, ap not clear, refl)
