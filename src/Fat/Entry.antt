-- ===== src/Fat/Entry.antt =====
-- `ShortDirEntry` of fat32.rs: a directory entry of 32 bytes.
use Prim.Native.Nat.{bit_and, bit_or}
use vyper.Prelude.{
  ℕ, ◌*◌, ◌/◌, ◌%◌, ◌^◌, ◌≡◌, ◌≢◌, ◌<◌, refl, ap, ◌∙◌, Bool, false, not, ◌||◌, Option, none, some,
  [], ◌∷◌, ◌++◌, if◌then◌else◌, ◌==◌, ltb, Bytes, length, get_or, take, from_le, to_le, arith,
  from_le-to_le, bit_or-field,
}
use vyper.Fat.Bpb.{le_at}

pub record ShortDirEntry : Type 0 where
  pub name : Bytes
  pub attr : ℕ
  pub nt_res : ℕ
  pub create_time_tenth : ℕ
  pub create_time : ℕ
  pub create_date : ℕ
  pub access_date : ℕ
  pub cluster_high : ℕ
  pub modify_time : ℕ
  pub modify_date : ℕ
  pub cluster_low : ℕ
  pub size : ℕ

unfoldable pub parse : Bytes → Option ShortDirEntry
parse bytes =
    if ltb (length bytes) 32 || (get_or bytes 0 0 == 0)
    then none
    else some (record {
      name = take 11 bytes;
      attr = get_or bytes 11 0;
      nt_res = get_or bytes 12 0;
      create_time_tenth = get_or bytes 13 0;
      create_time = le_at 2 14 bytes;
      create_date = le_at 2 16 bytes;
      access_date = le_at 2 18 bytes;
      cluster_high = le_at 2 20 bytes;
      modify_time = le_at 2 22 bytes;
      modify_date = le_at 2 24 bytes;
      cluster_low = le_at 2 26 bytes;
      size = le_at 4 28 bytes;
    })

-- The 21 bytes behind the name.
abbrev pub tail : ShortDirEntry → Bytes
tail self =
    self.attr
    ∷ self.nt_res
    ∷ self.create_time_tenth
    ∷ (to_le 2 self.create_time
        ++ (to_le 2 self.create_date
            ++ (to_le 2 self.access_date
                ++ (to_le 2 self.cluster_high
                    ++ (to_le 2 self.modify_time
                        ++ (to_le 2 self.modify_date
                            ++ (to_le 2 self.cluster_low ++ to_le 4 self.size)))))))

-- The slices that `serialize` writes, in their order; they fill the array.
unfoldable pub serialize : ShortDirEntry → Bytes
serialize self = self.name ++ tail self

unfoldable pub cluster : ShortDirEntry → ℕ
cluster self = bit_or (self.cluster_high * 2 ^ 16) self.cluster_low

unfoldable pub set_cluster : ShortDirEntry → ℕ → ShortDirEntry
set_cluster self c = record self { cluster_high = (c / 2 ^ 16) % 2 ^ 16; cluster_low = c % 2 ^ 16 }

unfoldable pub is_directory : ShortDirEntry → Bool
is_directory self = not (bit_and self.attr 0x10 == 0)

unfoldable pub is_volume_label : ShortDirEntry → Bool
is_volume_label self = not (bit_and self.attr 0x08 == 0)

unfoldable pub is_lfn : ShortDirEntry → Bool
is_lfn self = self.attr == 0x0F

unfoldable pub is_deleted : ShortDirEntry → Bool
is_deleted self = get_or self.name 0 0 == 0xE5

unfoldable pub is_free : ShortDirEntry → Bool
is_free self = (get_or self.name 0 0 == 0) || (get_or self.name 0 0 == 0xE5)

-- `ShortDirEntry::new`, of the short name that `make_short_name` makes
unfoldable pub new : Bytes → ℕ → ℕ → ℕ → ShortDirEntry
new short_name attr c size = record {
  name = short_name;
  attr = attr;
  nt_res = 0;
  create_time_tenth = 0;
  create_time = 0;
  create_date = 0;
  access_date = 0;
  cluster_high = (c / 2 ^ 16) % 2 ^ 16;
  modify_time = 0;
  modify_date = 0;
  cluster_low = c % 2 ^ 16;
  size = size;
}

-- The fields have their widths, and the first byte does not mark the end of the directory.
pub record IsEntry (self : ShortDirEntry) : Type 0 where
  pub name_length : length self.name ≡ 11
  pub in_use : get_or self.name 0 0 ≢ 0
  pub words :
      (self.create_time < 2 ^ 16)
      × (self.create_date < 2 ^ 16)
      × (self.access_date < 2 ^ 16)
      × (self.cluster_high < 2 ^ 16)
      × (self.modify_time < 2 ^ 16)
      × (self.modify_date < 2 ^ 16)
      × (self.cluster_low < 2 ^ 16)
  pub size_bits : self.size < 2 ^ 32

abbrev with_words : ShortDirEntry → ℕ → ℕ → ℕ → ℕ → ℕ → ℕ → ℕ → ℕ → ShortDirEntry
with_words self t d a h mt md l s = record self {
  create_time = t;
  create_date = d;
  access_date = a;
  cluster_high = h;
  modify_time = mt;
  modify_date = md;
  cluster_low = l;
  size = s;
}

-- The fields behind the name, read back.
abbrev read_back : ShortDirEntry → ShortDirEntry
read_back self =
    with_words self (from_le (to_le 2 self.create_time)) (from_le (to_le 2 self.create_date))
      (from_le (to_le 2 self.access_date)) (from_le (to_le 2 self.cluster_high))
      (from_le (to_le 2 self.modify_time)) (from_le (to_le 2 self.modify_date))
      (from_le (to_le 2 self.cluster_low)) (from_le (to_le 4 self.size))

read_back_lem : (self : ShortDirEntry) → IsEntry self → read_back self ≡ self
read_back_lem self v =
    let (t, d, a, h, mt, md, l) = v.words in
    cc (
      from_le-to_le 2 self.create_time t,
      from_le-to_le 2 self.create_date d,
      from_le-to_le 2 self.access_date a,
      from_le-to_le 2 self.cluster_high h,
      from_le-to_le 2 self.modify_time mt,
      from_le-to_le 2 self.modify_date md,
      from_le-to_le 2 self.cluster_low l,
      from_le-to_le 4 self.size v.size_bits,
    )

parse_named :
    (name : Bytes) (self : ShortDirEntry)
    → length name ≡ 11
    → get_or name 0 0 ≢ 0
    → parse (name ++ tail self) ≡ some (record (read_back self) { name = name })
unfolding parse
parse_named (a ∷ b ∷ c ∷ d ∷ e ∷ f ∷ g ∷ h ∷ i ∷ j ∷ k ∷ []) self l used =
    let in_use : (a == 0) ≡ false = ground arith in rw in_use refl
parse_named name self l used = absurd (omega arith)

-- An entry whose fields have their widths, and whose name does not begin with 0, is read back from
-- the bytes that it is written to.
pub parse-serialize : (self : ShortDirEntry) → IsEntry self → parse (serialize self) ≡ some self
unfolding serialize
parse-serialize self v =
    parse_named self.name self v.name_length v.in_use
    ∙ ap (λ (e : ShortDirEntry). some (record e { name = self.name })) (read_back_lem self v)

join_halves : (c : ℕ) → c < 2 ^ 32 → bit_or ((c / 2 ^ 16) % 2 ^ 16 * 2 ^ 16) (c % 2 ^ 16) ≡ c
join_halves c h =
    let high : (c / 2 ^ 16) % 2 ^ 16 ≡ c / 2 ^ 16 = omega arith in
    omega (arith, bit_or-field 16 ((c / 2 ^ 16) % 2 ^ 16) (c % 2 ^ 16) (omega arith), high)

-- The cluster of an entry, a number of 32 bits, is the one that it was made with, or that was set.
pub cluster-set_cluster :
    (self : ShortDirEntry) (name : Bytes) (attr c size : ℕ)
    → c < 2 ^ 32
    → (cluster (set_cluster self c) ≡ c) × (cluster (new name attr c size) ≡ c)
unfolding cluster set_cluster new
cluster-set_cluster self name attr c size h = (join_halves c h, join_halves c h)
