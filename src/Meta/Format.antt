-- ===== src/Meta/Format.antt =====
-- One meta page: the structs of meta.go, `readMeta`, `validate`, the signatures and the two-phase
-- update of the transaction id.
use gdbx.Base.{
  ℕ, ◌+◌, ◌*◌, ◌/◌, ◌%◌, ◌^◌, Bool, not, ◌||◌, ltb, leb, ◌==◌, if◌then◌else◌, List, Option, none,
  some,
}
use gdbx.Bytes.{Bytes, word16, word32, word64, read}
use gdbx.Page.Header.{invalid_pgno}

-- `[2]uint32`, low half first.
pub record Halves : Type 0 where
  pub lo : ℕ
  pub hi : ℕ

-- `uint64(h[0]) | uint64(h[1]) << 32`
abbrev pub join : Halves → ℕ
join h = h.lo + 2 ^ 32 * h.hi

-- `uint32(v)` and `uint32(v >> 32)`
abbrev pub split : ℕ → Halves
split v = record { lo = v % 2 ^ 32; hi = v / 2 ^ 32 % 2 ^ 32 }

pub record Geo : Type 0 where
  pub grow_pv : ℕ
  pub shrink_pv : ℕ
  pub lower : ℕ
  pub db_pgsize : ℕ
  pub now : ℕ
  pub next : ℕ

pub record Tree : Type 0 where
  pub flags : ℕ
  pub height : ℕ
  pub dupfix_size : ℕ
  pub root : ℕ
  pub branch_pages : ℕ
  pub leaf_pages : ℕ
  pub large_pages : ℕ
  pub sequence : ℕ
  pub items : ℕ
  pub mod_txnid : ℕ

pub record Canary : Type 0 where
  pub x : ℕ
  pub y : ℕ
  pub z : ℕ
  pub v : ℕ

pub record Meta : Type 0 where
  pub magic_and_version : Halves
  pub txnid_a : Halves
  pub reserve16 : ℕ
  pub validator_id : ℕ
  pub extra_page_hdr : ℕ
  pub geometry : Geo
  pub gc_tree : Tree
  pub main_tree : Tree
  pub canary : Canary
  pub sign : Halves
  pub txnid_b : Halves
  pub pages_retired : Halves
  pub boot_id : List ℕ
  pub dxb_id : List ℕ

halves_at : Bytes → ℕ → Halves
halves_at d i = record { lo = word32 d.at i; hi = word32 d.at (i + 4) }

geo_at : Bytes → ℕ → Geo
geo_at d i = record {
  grow_pv = word16 d.at i;
  shrink_pv = word16 d.at (i + 2);
  lower = word32 d.at (i + 4);
  db_pgsize = word32 d.at (i + 8);
  now = word32 d.at (i + 12);
  next = word32 d.at (i + 16);
}

tree_at : Bytes → ℕ → Tree
tree_at d i = record {
  flags = word16 d.at i;
  height = word16 d.at (i + 2);
  dupfix_size = word32 d.at (i + 4);
  root = word32 d.at (i + 8);
  branch_pages = word32 d.at (i + 12);
  leaf_pages = word32 d.at (i + 16);
  large_pages = word32 d.at (i + 20);
  sequence = word64 d.at (i + 24);
  items = word64 d.at (i + 32);
  mod_txnid = word64 d.at (i + 40);
}

-- `none` is `errMetaTooSmall`. The last four bytes of the GUID stand past the length that is checked.
unfoldable pub read_meta : Bytes → Option Meta
unfolding halves_at geo_at tree_at read
read_meta d =
    if ltb d.size 220
    then none
    else some (record {
      magic_and_version = halves_at d 0;
      txnid_a = halves_at d 8;
      reserve16 = word16 d.at 16;
      validator_id = d.at 18;
      extra_page_hdr = d.at 19;
      geometry = geo_at d 20;
      gc_tree = tree_at d 40;
      main_tree = tree_at d 88;
      canary = record {
        x = word64 d.at 136;
        y = word64 d.at 144;
        z = word64 d.at 152;
        v = word64 d.at 160;
      };
      sign = halves_at d 168;
      txnid_b = halves_at d 176;
      pages_retired = halves_at d 184;
      boot_id = read d.at 192 16;
      dxb_id = read d.at 208 16;
    })

abbrev pub meta_magic : ℕ
meta_magic = 0x59659DBDEF4C11

abbrev pub meta_data_version : ℕ
meta_data_version = 3

-- `(metaMagic << 8) + metaDataVersion`
abbrev pub meta_data_magic : ℕ
meta_data_magic = meta_magic * 256 + meta_data_version

unfoldable pub magic_valid : Meta → Bool
magic_valid m = join m.magic_and_version / 256 == meta_magic

-- `uint8` of the low half
unfoldable pub version : Meta → ℕ
version m = m.magic_and_version.lo % 256

-- `txnID`; `txnidASafe` reads the same halves atomically.
abbrev pub txn_id : Meta → ℕ
txn_id m = join m.txnid_a

abbrev pub txnid_b_safe : Meta → ℕ
txnid_b_safe m = join m.txnid_b

unfoldable pub is_consistent : Meta → Bool
is_consistent m = txn_id m == txnid_b_safe m

-- DATASIGN_NONE = 0 or DATASIGN_WEAK = 1
unfoldable pub is_weak : Meta → Bool
is_weak m = leb (join m.sign) 1

unfoldable pub is_steady : Meta → Bool
unfolding is_weak
is_steady m = not (is_weak m)

pub data MetaError : Type 0 where
  invalid_magic invalid_version inconsistent : MetaError

-- `none` is the nil error.
unfoldable pub validate : Meta → Option MetaError
unfolding magic_valid version is_consistent
validate m =
    if not (magic_valid m)
    then some invalid_magic
    else if ltb (version m) 2 || ltb meta_data_version (version m)
    then some invalid_version
    else if not (is_consistent m)
    then some inconsistent
    else none

unfoldable pub page_size : Meta → ℕ
page_size m = m.gc_tree.dupfix_size

unfoldable pub set_txnid : Meta → ℕ → Meta
set_txnid m tid = record m { txnid_a = split tid; txnid_b = split tid }

unfoldable pub set_sign_weak : Meta → Meta
set_sign_weak m = record m { sign = split 1 }

unfoldable pub set_sign_steady : Meta → Meta
set_sign_steady m = record m { sign = record { lo = 0xFFFF_FFFF; hi = 0xFFFF_FFFF } }

unfoldable pub begin_meta_update : Meta → ℕ → Meta
begin_meta_update m tid = record m { txnid_a = split tid; txnid_b = record { lo = 0; hi = 0 } }

unfoldable pub end_meta_update : Meta → ℕ → Meta
end_meta_update m tid = record m { txnid_b = split tid }

-- `initMeta`; the boot id is what `rand.Read` gives.
unfoldable pub init_meta : Meta → ℕ → ℕ → List ℕ → Meta
unfolding set_txnid set_sign_steady
init_meta m size tid random =
    let m1 = set_txnid (record m { magic_and_version = split meta_data_magic }) tid in
    let m2 = record m1 {
      geometry = record {
        grow_pv = 0x0180;
        shrink_pv = 0x0300;
        lower = 3;
        db_pgsize = 0x1800000;
        now = 3;
        next = 3;
      };
      gc_tree = record (m1.gc_tree) { flags = 0x08; dupfix_size = size; root = invalid_pgno };
      main_tree = record (m1.main_tree) { root = invalid_pgno };
    } in
    record (set_sign_steady m2) { boot_id = random }
