-- ===== src/Fat/Directory.antt =====
-- Names and paths of a FAT32 volume: kernel/modules/fat/src/fat.cc, fat32_getname, fat32_lookup and
-- fat32_readdir. A folder's sector is its bytes, 32 for each entry; a pointer to an entry is the list of the
-- bytes from there on. Strings are the lists of their bytes.
use neptun_os.Base.{
  ℕ, zero, suc, ◌+◌, ◌-◌, ◌*◌, ◌/◌, ◌%◌, ◌^◌, Bool, true, false, ◌||◌, not, Option, none, some,
  List, [], ◌∷◌, ◌++◌, Outcome, ok, fatal, ◌>>=◌, leb, ltb, ◌==◌, if◌then◌else◌, get_or, set,
  length,
}
use neptun_os.Bits.{u64_max}
use neptun_os.Text.{Bytes, peek, strcmp}
use neptun_os.Text.Copy.{drop}
use neptun_os.Text.Ucs2.{ucs2_to_asciin}
use neptun_os.Disk.{msd_read}
use neptun_os.Fat.{Handle, clusterfrom, clusteroff, chainread}

-- The fields of the entry that begins with these bytes.
abbrev pub attrs : Bytes → ℕ
attrs en = get_or en 11 0

abbrev pub cluster_hi16 : Bytes → ℕ
cluster_hi16 en = get_or en 20 0 + 256 * get_or en 21 0

abbrev pub cluster_lo16 : Bytes → ℕ
cluster_lo16 en = get_or en 26 0 + 256 * get_or en 27 0

abbrev pub size : Bytes → ℕ
size en =
    get_or en 28 0 + 2 ^ 8 * get_or en 29 0 + 2 ^ 16 * get_or en 30 0 + 2 ^ 24 * get_or en 31 0

-- the number of a part of a long name, counted from 1
abbrev pub order : Bytes → ℕ
order en = get_or en 0 0 % 32

abbrev pub is_lfn : Bytes → Bool
is_lfn en = attrs en == 0x0f

abbrev pub is_volume_id : Bytes → Bool
is_volume_id en = attrs en / 8 % 2 == 1

abbrev pub is_directory : Bytes → Bool
is_directory en = attrs en / 16 % 2 == 1

-- The 13 units of an entry for a long name, put into `longname`; a part 0 would stand in front of it.
unfoldable pub add_long_name : (en longname : Bytes) → Outcome Bytes
add_long_name en longname =
    let place = (order en - 1) * 13 in
    if order en == 0
    then fatal
    else (ucs2_to_asciin (drop 1 en) place 5 longname
        >>= ucs2_to_asciin (drop 14 en) (place + 5) 6
        >>= ucs2_to_asciin (drop 28 en) (place + 11) 2)

-- The string at a pointer.
unfoldable pub string_at : Bytes → Outcome Bytes
string_at [] = fatal
string_at (c ∷ p) = let rest = string_at p in if c == 0 then ok [] else (rest >>= λ s. ok (c ∷ s))

-- The bytes in front of the first blank; the loop does not stop at the end of `simplename`.
unfoldable pub up_to_blank : Bytes → Outcome Bytes
up_to_blank [] = fatal
up_to_blank (c ∷ p) =
    let rest = up_to_blank p in if c == b' ' then ok [] else (rest >>= λ s. ok (c ∷ s))

unfoldable pub fat32_getname : (longname en : Bytes) → Outcome (Option Bytes)
fat32_getname longname en = do
  l ← peek longname
  c ← peek en
  if not (l == 0)
      then (string_at longname >>= λ s. ok (some s))
      else if c == b'.' || c == b' ' || ltb 128 c
      then ok none
      else (up_to_blank en >>= λ s. ok (some s))

abbrev pub zeros : ℕ → Bytes
zeros zero = []
zeros (suc n) = 0 ∷ zeros n

-- The state of the loops of fat32_lookup: the sector, the long name, the path that is left, and whether
-- its first part was found.
pub record Search : Type 0 where
  pub ent : Bytes
  pub longname : Bytes
  pub path : Bytes
  pub found : Bool

-- What the loop over the entries ends with: an entry that is returned, or the state for the next part.
pub data Visit : Type 0 where
  arrived : Bytes → Visit
  searching : Search → Visit

-- `strcmp(basename.c_str(), name.c_str())`
unfoldable pub is_named : (basename : Bytes) → Option Bytes → Outcome Bool
is_named basename none = ok false
is_named basename (some name) = strcmp (basename ++ 0 ∷ []) (name ++ 0 ∷ []) >>= λ d. ok (d == 0)

-- `while (*path == '/') path++`
unfoldable pub skip_slashes : Bytes → Bytes
skip_slashes [] = []
skip_slashes (c ∷ p) = if c == b'/' then skip_slashes p else c ∷ p

-- The part of the path up to the next slash or to its end.
unfoldable pub segment : Bytes → Outcome Bytes
segment [] = fatal
segment (c ∷ p) =
    let rest = segment p in if c == b'/' || c == 0 then ok [] else (rest >>= λ s. ok (c ∷ s))

-- The loop over the entries: the names, and whether they are folders.
unfoldable pub list_entries : (rounds : ℕ) (longname en : Bytes) → Outcome (List (Bytes × Bool))
list_entries zero longname en = fatal
list_entries (suc k) longname en = (if leb (length en) 11 then fatal else ok (attrs en)) >>= λ a.
    elim (a == 0) [
      | true ↦ ok []
      | false ↦ elim (is_lfn en) [
        | true ↦ add_long_name en longname >>= λ l. list_entries k l (drop 32 en)
        | false ↦ elim (is_volume_id en) [
          | true ↦ list_entries k longname (drop 32 en)
          | false ↦ do
            name ← fat32_getname longname en
            others ← list_entries k (set longname 0 0) (drop 32 en)
            ok (elim name [ none ↦ others | some n ↦ (n, is_directory en) ∷ others ])
        ]
      ]
    ]

module _ (disk : ℕ → ℕ) (h : Handle) where
  -- What is done at the entry that has the name.
  unfoldable pub enter : (seglen : ℕ) (en : Bytes) → Search → Outcome Visit
  enter seglen en s = do
    let path = drop seglen s.path
    c ← peek path
    if c == 0
        then ok (arrived en)
        else (msd_read disk (clusteroff h (cluster_lo16 en) (cluster_hi16 en)) 512 512 >>= λ ent.
            ok (
              searching
                (record { ent = ent; longname = set s.longname 0 0; path = path; found = true })))

  -- The loop over the entries from number `i` on, with the rounds left of the 16; it goes on behind an
  -- entry that was entered.
  unfoldable pub visit_entries : (basename : Bytes) → (rounds i : ℕ) → Search → Outcome Visit
  visit_entries basename zero i s = ok (searching s)
  visit_entries basename (suc k) i s =
      let en = drop (32 * i) s.ent in
      elim (attrs en == 0) [
        | true ↦ ok (searching s)
        | false ↦ elim (is_lfn en) [
          | true ↦ add_long_name en s.longname >>= λ l.
              visit_entries basename k (i + 1) (record s { longname = l })
          | false ↦ elim (is_volume_id en) [
            | true ↦ visit_entries basename k (i + 1) s
            | false ↦ fat32_getname s.longname en >>= is_named basename >>= λ same. elim same [
              | true ↦ enter (length basename) en s >>= λ v. elim v [
                | arrived e ↦ ok (arrived e)
                | searching s' ↦ visit_entries basename k (i + 1) s'
              ]
              | false ↦ visit_entries basename k (i + 1) s
            ]
          ]
        ]
      ]

  -- The loop over the parts of the path, in that many rounds at most: the entry, and what lies behind it.
  unfoldable pub lookup_from : (rounds : ℕ) → Search → Outcome Bytes
  unfolding skip_slashes segment
  lookup_from zero s = fatal
  lookup_from (suc k) s = peek s.path >>= λ c. elim (c == 0) [
    | true ↦ fatal
    | false ↦
        let path = skip_slashes s.path in
        peek path >>= λ d. elim (d == 0) [
          | true ↦ ok s.ent
          | false ↦ segment path >>= λ basename.
              visit_entries basename 16 0 (record s { path = path; found = false }) >>= λ v.
              elim v [
                | arrived e ↦ ok e
                | searching s' ↦ elim s'.found [ true ↦ lookup_from k s' | false ↦ fatal ]
              ]
        ]
  ]

  -- The cluster of the root folder goes into the first entry of its sector.
  unfoldable pub fat32_lookup : (rounds : ℕ) (path : Bytes) → Outcome Bytes
  unfolding lookup_from
  fat32_lookup rounds path = msd_read disk h.dataoffset 512 512 >>= λ ent.
      lookup_from rounds (record {
        ent = set (set (set (set ent 20 0) 21 0) 26 2) 27 0;
        longname = zeros 256;
        path = path;
        found = false;
      })

  unfoldable pub fat32_read :
      (rounds : ℕ) (path : Bytes) (offset bytes buf : ℕ) → Outcome (ℕ × Bytes)
  fat32_read rounds path offset bytes buf = fat32_lookup rounds path >>= λ e.
      if buf == 0
      then (if is_directory e then fatal else ok (size e, []))
      else if ltb (size e) offset
      then fatal
      else chainread fatal disk h rounds (clusterfrom (cluster_lo16 e) (cluster_hi16 e)) offset
          bytes buf

  -- The report on the way looks up the root and the path as well. `fresh` is what lies in the block for
  -- long names, and `tmp` the address of the one for the entries.
  unfoldable pub fat32_readdir :
      (rounds tmp : ℕ) (fresh path : Bytes) → Outcome (List (Bytes × Bool))
  unfolding list_entries
  fat32_readdir rounds tmp fresh path = do
    _ ← fat32_lookup rounds (b'/' ∷ 0 ∷ [])
    e ← fat32_lookup rounds path
    let cluster = clusterfrom (cluster_lo16 e) (cluster_hi16 e)
    (bytes, _) ← chainread fatal disk h rounds cluster 0 u64_max 0
    (_, ents) ← chainread fatal disk h rounds cluster 0 bytes tmp
    list_entries rounds (set fresh 0 0) ents
