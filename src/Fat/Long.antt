-- ===== src/Fat/Long.antt =====
-- `LfnEntry` of fat32.rs and the long names of files: a name is the list of its characters.
pub mod Fill
pub mod Round
pub mod Slots
mod Examples
use Prim.Native.Nat.{bit_and, bit_or}
use vyper.Prelude.{
  ℕ, zero, suc, ◌+◌, ◌-◌, ◌*◌, ◌/◌, ◌%◌, ◌^◌, min, Bool, true, false, not, ◌||◌, ◌&&◌, Option, none,
  some, List, [], ◌∷◌, ◌++◌, if◌then◌else◌, ◌==◌, ltb, leb, Bytes, length, get_or, set, take, drop,
  replicate, from_le, to_le,
}
use vyper.Fat.Bpb.{le_at}

pub record LfnEntry : Type 0 where
  pub seq : ℕ
  pub name1 : List ℕ
  pub attr : ℕ
  pub entry_type : ℕ
  pub checksum : ℕ
  pub name2 : List ℕ
  pub cluster : ℕ
  pub name3 : List ℕ

-- The `n` words at an offset.
abbrev pub words_at : ℕ → ℕ → Bytes → List ℕ
words_at zero offset bytes = []
words_at (suc n) offset bytes = le_at 2 offset bytes ∷ words_at n (offset + 2) bytes

unfoldable pub parse : Bytes → Option LfnEntry
parse bytes =
    if ltb (length bytes) 32 || not (get_or bytes 11 0 == 0x0F)
    then none
    else some (record {
      seq = get_or bytes 0 0;
      name1 = words_at 5 1 bytes;
      attr = get_or bytes 11 0;
      entry_type = get_or bytes 12 0;
      checksum = get_or bytes 13 0;
      name2 = words_at 6 14 bytes;
      cluster = le_at 2 26 bytes;
      name3 = words_at 2 28 bytes;
    })

abbrev pub words_to_le : List ℕ → Bytes
words_to_le [] = []
words_to_le (w ∷ ws) = to_le 2 w ++ words_to_le ws

-- The bytes that `serialize` writes, in their order; they fill the array.
unfoldable pub serialize : LfnEntry → Bytes
serialize self =
    self.seq
    ∷ (words_to_le self.name1
        ++ (0x0F
            ∷ 0
            ∷ self.checksum
            ∷ (words_to_le self.name2 ++ (0 ∷ 0 ∷ words_to_le self.name3))))

unfoldable pub sequence_number : LfnEntry → ℕ
sequence_number self = bit_and self.seq 0x1F

unfoldable pub is_last : LfnEntry → Bool
is_last self = not (bit_and self.seq 0x40 == 0)

-- `char::from_u32` of a 16-bit word: no surrogates.
abbrev pub is_char : ℕ → Bool
is_char c = ltb c 0xD800 || leb 0xE000 c

-- A loop of `chars`: what it pushes.
unfoldable pub pushed : List ℕ → List ℕ
pushed [] = []
pushed (c ∷ cs) =
    let rest = pushed cs in
    if (c == 0) || (c == 0xFFFF) then [] else if is_char c then c ∷ rest else rest

unfoldable pub chars : LfnEntry → List ℕ
chars self =
    let first = pushed self.name1 in
    if ltb (length first) 5
    then first
    else (let second = first ++ pushed self.name2 in
        if ltb (length second) 11 then second else second ++ pushed self.name3)

abbrev pub words_of : List ℕ → List ℕ
words_of [] = []
words_of (c ∷ cs) = c % 2 ^ 16 ∷ words_of cs

-- `n` words 0xFFFF with those of the characters written over them.
unfoldable pub fill : ℕ → List ℕ → List ℕ
fill n cs = words_of (take n cs) ++ replicate (n - length cs) 0xFFFF

unfoldable pub new : ℕ → ℕ → List ℕ → Bool → LfnEntry
new seq checksum cs last =
    let len = length cs in
    let name1 = fill 5 cs in
    let name2 = if leb 5 len then fill 6 (drop 5 cs) else replicate 6 0xFFFF in
    let name3 = if leb 11 len then fill 2 (drop 11 cs) else replicate 2 0xFFFF in
    record {
      seq = if last then bit_or seq 0x40 else seq;
      name1 = if ltb len 5 then set name1 len 0 else name1;
      attr = 0x0F;
      entry_type = 0;
      checksum = checksum;
      name2 = if leb 5 len && ltb len 11 then set name2 (len - 5) 0 else name2;
      cluster = 0;
      name3 = if leb 11 len && ltb len 13 then set name3 (len - 11) 0 else name3;
    }

-- `rotate_right(1)` of a byte, and a wrapping sum
abbrev pub add_to_checksum : ℕ → ℕ → ℕ
add_to_checksum sum b = (sum / 2 + sum % 2 * 128 + b) % 256

abbrev pub checksum_from : ℕ → Bytes → ℕ
checksum_from sum [] = sum
checksum_from sum (b ∷ bs) = checksum_from (add_to_checksum sum b) bs

unfoldable pub lfn_checksum : Bytes → ℕ
lfn_checksum short_name = checksum_from 0 short_name

-- The entries of `create_lfn_entries` from the `n`-th down, of the `total`.
unfoldable pub lfn_entries : ℕ → ℕ → List ℕ → ℕ → List LfnEntry
lfn_entries checksum total name zero = []
lfn_entries checksum total name (suc i) =
    let stop = min (i * 13 + 13) (length name) in
    new ((i + 1) % 256) checksum (take (stop - i * 13) (drop (i * 13) name)) (i + 1 == total)
    ∷ lfn_entries checksum total name i

unfoldable pub create_lfn_entries : List ℕ → Bytes → List LfnEntry
create_lfn_entries name short_name =
    let num_entries = (length name + 12) / 13 in
    lfn_entries (lfn_checksum short_name) num_entries name num_entries

-- `assemble_lfn`: the characters of the entries, from the last entry to the first.
unfoldable pub assemble_lfn : List LfnEntry → List ℕ
assemble_lfn [] = []
assemble_lfn (e ∷ es) = assemble_lfn es ++ chars e
