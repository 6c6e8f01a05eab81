-- ===== src/Client/Cache.antt =====
-- The metadata half of the client cache: attr.go, dir.go, validity.go and the lookups of backend.go in
-- pkg/client/backend/cache/. The memory tier without eviction or persistence, and without the caches
-- of extended attributes and access checks; one call at a time, but
-- for the epoch of a revalidation, which is captured before it. The clock, what the server answers
-- to `GetAttrIfChanged` and what the inner backend answers are arguments. A TTL of 0 is none.
pub mod Freshness
mod Tests
use g_mountie.Prelude.{
  ℕ, ◌+◌, ◌%◌, ◌^◌, Bool, true, false, ◌&&◌, ◌||◌, not, Option, none, some, List, [], ◌∷◌, ◌==◌,
  ltb, if◌then◌else◌, get, put, del, keep_if, Bytes, Bytes-discrete,
}
use g_mountie.Paths.{subtree_pred}
use g_mountie.Fserr.{FsError, enoent}
use g_mountie.Client.Overlay.{NodeAttr}
use g_mountie.Client.Overlay.Listing.{DirEntryPlus, split_path2}
use g_mountie.Client.Layer.{Answer, failed, answered, is_enoent, join_path}

pub record AttrEntry : Type 0 where
  pub attr : Option NodeAttr  -- none is negative
  pub expires_at : ℕ

-- backend.DirEntry
pub record DirEntry : Type 0 where
  pub ino : ℕ
  pub mode : ℕ
  pub name : Bytes

pub record DirListing : Type 0 where
  pub entries : List DirEntry
  pub expires_at : ℕ

pub record ValidityTracker : Type 0 where
  pub verified : Bool
  pub epoch : ℕ
  pub verified_paths : List (Bytes × ℕ)

pub record CacheConfig : Type 0 where
  pub attr_ttl : ℕ
  pub negative_ttl : ℕ
  pub dir_ttl : ℕ

pub record CachedBackend : Type 0 where
  pub cfg : CacheConfig
  pub attr : List (Bytes × AttrEntry)
  pub dir : List (Bytes × DirListing)
  pub data_chunks : List (Bytes × List Bytes)
  pub validity : ValidityTracker

abbrev pub new_validity_tracker : ValidityTracker
new_validity_tracker = record { verified = false; epoch = 0; verified_paths = [] }

unfoldable pub mark_global_verified : ValidityTracker → ValidityTracker
mark_global_verified v = record v { verified = true; verified_paths = [] }

unfoldable pub mark_global_unverified : ValidityTracker → ValidityTracker
mark_global_unverified v = record v { verified = false; epoch = (v.epoch + 1) % 2 ^ 64 }

unfoldable pub mark_path_verified : ValidityTracker → Bytes → ℕ → ValidityTracker
mark_path_verified v path epoch = record v {
  verified_paths = put Bytes-discrete v.verified_paths path epoch;
}

abbrev pub stamp_is : Option ℕ → ℕ → Bool
stamp_is none epoch = false
stamp_is (some e) epoch = e == epoch

unfoldable pub is_path_verified : ValidityTracker → Bytes → Bool
is_path_verified v path = stamp_is (get Bytes-discrete v.verified_paths path) v.epoch

abbrev pub is_expired : ℕ → ℕ → ℕ → Bool
is_expired ttl now expires_at = ltb 0 ttl && ltb expires_at now

pub data Cached (A : Type 0) : Type 0 where
  missed negative : Cached A
  positive : A → Cached A

abbrev pub positive_or_negative : CacheConfig → ℕ → ℕ → Option NodeAttr → Cached NodeAttr
positive_or_negative cfg now expires_at none =
    if is_expired cfg.negative_ttl now expires_at then missed else negative
positive_or_negative cfg now expires_at (some a) =
    if is_expired cfg.attr_ttl now expires_at then missed else positive a

abbrev pub attr_hit : CacheConfig → ℕ → Option AttrEntry → Cached NodeAttr
attr_hit cfg now none = missed
attr_hit cfg now (some e) = positive_or_negative cfg now e.expires_at e.attr

-- `attrCache.get`; `attr_expire` is what is left when it finds an entry that has expired.
unfoldable pub attr_get : CachedBackend → ℕ → Bytes → Cached NodeAttr
attr_get c now path = attr_hit c.cfg now (get Bytes-discrete c.attr path)

abbrev pub is_missed : Cached NodeAttr → Bool
is_missed missed = true
is_missed _ = false

unfoldable pub attr_expire : CachedBackend → ℕ → Bytes → CachedBackend
attr_expire c now path =
    if is_missed (attr_get c now path)
    then record c { attr = del Bytes-discrete c.attr path }
    else c

unfoldable pub put_positive : CachedBackend → ℕ → Bytes → NodeAttr → CachedBackend
put_positive c now path a = record c {
  attr =
      put Bytes-discrete c.attr path (record { attr = some a; expires_at = now + c.cfg.attr_ttl });
}

unfoldable pub put_negative : CachedBackend → ℕ → Bytes → CachedBackend
put_negative c now path = record c {
  attr =
      put Bytes-discrete c.attr path
        (record { attr = none; expires_at = now + c.cfg.negative_ttl });
}

abbrev pub dir_hit : CacheConfig → ℕ → Option DirListing → Option (List DirEntry)
dir_hit cfg now none = none
dir_hit cfg now (some l) = if is_expired cfg.dir_ttl now l.expires_at then none else some l.entries

-- `dirCache.get`
unfoldable pub dir_get : CachedBackend → ℕ → Bytes → Option (List DirEntry)
dir_get c now path = dir_hit c.cfg now (get Bytes-discrete c.dir path)

unfoldable pub dir_put : CachedBackend → ℕ → Bytes → List DirEntry → CachedBackend
dir_put c now path entries = record c {
  dir =
      put Bytes-discrete c.dir path
        (record { entries = entries; expires_at = now + c.cfg.dir_ttl });
}

abbrev pub path_parent : Bytes → Bytes
path_parent p = (split_path2 p).0

-- `invalidateSubtree`
unfoldable pub invalidate_subtree : CachedBackend → Bytes → CachedBackend
invalidate_subtree c path = record c {
  attr = keep_if (λ e. not (subtree_pred path e.0)) c.attr;
  dir = keep_if (λ e. not (subtree_pred path e.0)) c.dir;
  data_chunks = keep_if (λ e. not (subtree_pred path e.0)) c.data_chunks;
}

-- What `GetAttrIfChanged` answers.
pub data Check : Type 0 where
  not_modified gone rpc_error : Check
  changed : NodeAttr → Check

pub data Revalidated : Type 0 where
  unchanged missing fallback : Revalidated
  fresh : NodeAttr → Revalidated

-- `revalidate` flushes the path's attributes and chunks, and its parent's listing.
unfoldable pub flush_path : CachedBackend → Bytes → CachedBackend
flush_path c path = record c {
  attr = del Bytes-discrete c.attr path;
  data_chunks = del Bytes-discrete c.data_chunks path;
  dir = del Bytes-discrete c.dir (path_parent path);
}

unfoldable pub revalidate : CachedBackend → ℕ → Bytes → ℕ → Check → CachedBackend × Revalidated
revalidate c now path epoch rpc_error = (c, fallback)
revalidate c now path epoch not_modified =
    (record c { validity = mark_path_verified c.validity path epoch }, unchanged)
revalidate c now path epoch gone = (put_negative (flush_path c path) now path, missing)
revalidate c now path epoch (changed a) = (flush_path c path, fresh a)

abbrev pub primed : CachedBackend → ℕ → Bytes → Answer NodeAttr → CachedBackend
primed c now key (answered a) = put_positive c now key a
primed c now key (failed e) = if is_enoent e then put_negative c now key else c

-- `statFromInner` and `lookupFromInner`.
unfoldable pub from_inner :
    CachedBackend → ℕ → Bytes → Answer NodeAttr → CachedBackend × Answer NodeAttr
from_inner c now key inner = (primed c now key inner, inner)

abbrev pub answer_of : Cached NodeAttr → Answer NodeAttr
answer_of (positive a) = answered a
answer_of negative = failed enoent
answer_of missed = failed enoent

abbrev pub known_version : Cached NodeAttr → ℕ
known_version (positive a) = a.version
known_version negative = 0
known_version missed = 0

-- May the cache answer for the path without the server?
abbrev pub is_trusted : ValidityTracker → Bool → Bytes → Bool
is_trusted v delegated key = v.verified || (is_path_verified v key || delegated)

abbrev pub settle :
    ℕ
    → Bytes
    → Cached NodeAttr
    → Answer NodeAttr
    → CachedBackend × Revalidated
    → CachedBackend × Answer NodeAttr
settle now key cached inner (c, unchanged) = (c, answer_of cached)
settle now key cached inner (c, missing) = (c, failed enoent)
settle now key cached inner (c, fresh a) = (put_positive c now key a, answered a)
settle now key cached inner (c, fallback) = from_inner c now key inner

abbrev pub lookup_cached :
    CachedBackend
    → ℕ
    → Bool
    → Bytes
    → (ℕ → Check)
    → Answer NodeAttr
    → Cached NodeAttr
    → CachedBackend × Answer NodeAttr
lookup_cached c now delegated key check inner missed =
    from_inner (attr_expire c now key) now key inner
lookup_cached c now delegated key check inner negative =
    if is_trusted c.validity delegated key
    then (c, failed enoent)
    else settle now key negative inner (revalidate c now key c.validity.epoch (check 0))
lookup_cached c now delegated key check inner (positive a) =
    if is_trusted c.validity delegated key
    then (c, answered a)
    else settle now key (positive a) inner (revalidate c now key c.validity.epoch (check a.version))

-- `cachedAttrLookup`, which is `Stat` and `Lookup`.
unfoldable pub cached_attr_lookup :
    CachedBackend
    → ℕ
    → Bool
    → Bytes
    → (ℕ → Check)
    → Answer NodeAttr
    → CachedBackend × Answer NodeAttr
cached_attr_lookup c now delegated key check inner =
    lookup_cached c now delegated key check inner (attr_get c now key)

abbrev pub stripped : List DirEntryPlus → List DirEntry
stripped [] = []
stripped (e ∷ l) = record { ino = e.ino; mode = e.mode; name = e.name } ∷ stripped l

abbrev pub plus_from_entries : List DirEntry → List DirEntryPlus
plus_from_entries [] = []
plus_from_entries (e ∷ l) =
    record {
      ino = e.ino;
      mode = e.mode;
      name = e.name;
      attr = none;
      xattr_names = [];
      xattr_listed = false;
    }
    ∷ plus_from_entries l

abbrev pub prime_entry : CachedBackend → ℕ → Bytes → Option NodeAttr → CachedBackend
prime_entry c now key none = c
prime_entry c now key (some a) = put_positive c now key a

abbrev pub prime_entries : CachedBackend → ℕ → Bytes → List DirEntryPlus → CachedBackend
prime_entries c now path [] = c
prime_entries c now path (e ∷ l) =
    prime_entries (prime_entry c now (join_path path e.name) e.attr) now path l

abbrev pub list_dir_from_inner :
    CachedBackend
    → ℕ
    → Bytes
    → Answer (List DirEntryPlus)
    → CachedBackend × Answer (List DirEntryPlus)
list_dir_from_inner c now path (failed e) = (c, failed e)
list_dir_from_inner c now path (answered l) =
    (dir_put (prime_entries c now path l) now path (stripped l), answered l)

abbrev pub is_none : Option (List DirEntry) → Bool
is_none none = true
is_none (some l) = false

-- What is left of the listings when `dirCache.get` finds one that has expired.
unfoldable pub dir_expire : CachedBackend → ℕ → Bytes → CachedBackend
dir_expire c now path =
    if is_none (dir_get c now path) then record c { dir = del Bytes-discrete c.dir path } else c

abbrev pub listing_or :
    CachedBackend
    → ℕ
    → Bytes
    → Answer (List DirEntryPlus)
    → Option (List DirEntry)
    → CachedBackend × Answer (List DirEntryPlus)
listing_or c now path inner none = list_dir_from_inner (dir_expire c now path) now path inner
listing_or c now path inner (some l) = (c, answered (plus_from_entries l))

abbrev pub settle_listing :
    ℕ
    → Bytes
    → List DirEntry
    → Answer (List DirEntryPlus)
    → CachedBackend × Revalidated
    → CachedBackend × Answer (List DirEntryPlus)
settle_listing now path l inner (c, unchanged) = listing_or c now path inner (dir_get c now path)
settle_listing now path l inner (c, missing) = (c, failed enoent)
settle_listing now path l inner (c, fresh a) = list_dir_from_inner c now path inner
settle_listing now path l inner (c, fallback) = (c, answered (plus_from_entries l))

abbrev pub check_listing :
    CachedBackend
    → ℕ
    → Bytes
    → (ℕ → Check)
    → List DirEntry
    → Answer (List DirEntryPlus)
    → Cached NodeAttr
    → CachedBackend × Answer (List DirEntryPlus)
check_listing c now path check l inner missed =
    list_dir_from_inner (attr_expire c now path) now path inner
check_listing c now path check l inner negative = list_dir_from_inner c now path inner
check_listing c now path check l inner (positive a) =
    settle_listing now path l inner (revalidate c now path c.validity.epoch (check a.version))

abbrev pub list_cached :
    CachedBackend
    → ℕ
    → Bool
    → Bytes
    → (ℕ → Check)
    → Answer (List DirEntryPlus)
    → Option (List DirEntry)
    → CachedBackend × Answer (List DirEntryPlus)
list_cached c now delegated path check inner none =
    list_dir_from_inner (dir_expire c now path) now path inner
list_cached c now delegated path check inner (some l) =
    if is_trusted c.validity delegated path
    then (c, answered (plus_from_entries l))
    else check_listing c now path check l inner (attr_get c now path)

-- `ListDir`
unfoldable pub list_dir :
    CachedBackend
    → ℕ
    → Bool
    → Bytes
    → (ℕ → Check)
    → Answer (List DirEntryPlus)
    → CachedBackend × Answer (List DirEntryPlus)
list_dir c now delegated path check inner =
    list_cached c now delegated path check inner (dir_get c now path)
