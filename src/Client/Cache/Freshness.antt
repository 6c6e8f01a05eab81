-- ===== src/Client/Cache/Freshness.antt =====
-- Stat and Lookup of cache/backend.go against a server, and the ListDir after them.
use g_mountie.Prelude.{
  ℕ, ◌+◌, ◌≡◌, ◌≢◌, inl, inr, refl, sym, ◌∙◌, true, false, Option, none, some, List, ◌==◌, ltb,
  if◌then◌else◌, Bytes, Bytes-discrete, get-put_self, get-del_ne, ap, Bool-cases, arith,
}
use g_mountie.Fserr.{enoent}
use g_mountie.Client.Overlay.{NodeAttr}
use g_mountie.Client.Overlay.Listing.{DirEntryPlus}
use g_mountie.Client.Layer.{Answer, failed, answered}
use g_mountie.Client.Cache.{
  AttrEntry, DirEntry, CachedBackend, Cached, missed, negative, positive, attr_get, put_positive,
  put_negative, is_expired, is_trusted, Check, not_modified, gone, changed, flush_path, revalidate,
  cached_attr_lookup, path_parent, dir_get, list_dir, plus_from_entries, lookup_cached, from_inner,
  settle, attr_expire, dir_hit,
}

-- `GetAttrIfChanged` of a server on which the path is so.
abbrev pub check_of : Option NodeAttr → ℕ → Check
check_of none known = gone
check_of (some a) known = if a.version == known then not_modified else changed a

abbrev pub served : Option NodeAttr → Answer NodeAttr
served none = failed enoent
served (some a) = answered a

abbrev pub as_cached : Option NodeAttr → Cached NodeAttr
as_cached none = negative
as_cached (some a) = positive a

-- Equal versions are equal attributes, and a path that exists has a version.
abbrev pub Versioned : Cached NodeAttr → Option NodeAttr → Type 0
Versioned missed server = Unit
Versioned c none = Unit
Versioned negative (some a) = a.version ≢ 0
Versioned (positive b) (some a) = a.version ≡ b.version → a ≡ b

fresh_deadline : (ttl now : ℕ) → is_expired ttl now (now + ttl) ≡ false
fresh_deadline ttl now = elim (Bool-cases (ltb (now + ttl) now)) [
  | inl y ↦ absurd (ground (arith, y))
  | inr n ↦ ground (arith, n)
]

attr_get-put_positive :
    (c : CachedBackend) (now : ℕ) (key : Bytes) (a : NodeAttr)
    → attr_get (put_positive c now key a) now key ≡ positive a
unfolding attr_get put_positive
attr_get-put_positive c now key a =
    let e : AttrEntry = record { attr = some a; expires_at = now + c.cfg.attr_ttl } in
    rw (get-put_self Bytes-discrete c.attr key e, fresh_deadline c.cfg.attr_ttl now) refl

attr_get-put_negative :
    (c : CachedBackend) (now : ℕ) (key : Bytes)
    → attr_get (put_negative c now key) now key ≡ negative
unfolding attr_get put_negative
attr_get-put_negative c now key =
    let e : AttrEntry = record { attr = none; expires_at = now + c.cfg.negative_ttl } in
    rw (get-put_self Bytes-discrete c.attr key e, fresh_deadline c.cfg.negative_ttl now) refl

-- The cache answers as the server does, and then holds that.
abbrev pub Agrees : ℕ → Bytes → Option NodeAttr → CachedBackend × Answer NodeAttr → Type 0
Agrees now key server (c, a) = (a ≡ served server) × (attr_get c now key ≡ as_cached server)

primed-Agrees :
    (c : CachedBackend) (now : ℕ) (key : Bytes) (server : Option NodeAttr)
    → Agrees now key server (from_inner c now key (served server))
unfolding from_inner
primed-Agrees c now key none = (refl, attr_get-put_negative c now key)
primed-Agrees c now key (some a) = (refl, attr_get-put_positive c now key a)

-- A stamp leaves the attributes.
stamped_get :
    (c : CachedBackend) (now : ℕ) (key : Bytes) (epoch : ℕ)
    → attr_get (revalidate c now key epoch not_modified).0 now key ≡ attr_get c now key
unfolding attr_get revalidate
stamped_get c now key epoch = refl

negative-Agrees :
    (c : CachedBackend) (now : ℕ) (key : Bytes) (server : Option NodeAttr)
    → attr_get c now key ≡ negative
    → Versioned negative server
    → Agrees now key server (
        settle now key negative
          (served server)
          (revalidate c now key c.validity.epoch (check_of server 0)))
unfolding revalidate
negative-Agrees c now key none e v = (refl, attr_get-put_negative (flush_path c key) now key)
negative-Agrees c now key (some a) e v = elim (Bool-cases (a.version == 0)) [
  | inl y ↦ absurd (ground (arith, y, v))
  | inr n ↦ rw n (refl, attr_get-put_positive (flush_path c key) now key a)
]

positive-Agrees :
    (c : CachedBackend) (now : ℕ) (key : Bytes) (server : Option NodeAttr) (b : NodeAttr)
    → attr_get c now key ≡ positive b
    → Versioned (positive b) server
    → Agrees now key server (
        settle now key
          (positive b)
          (served server)
          (revalidate c now key c.validity.epoch (check_of server b.version)))
unfolding revalidate
positive-Agrees c now key none b e v = (refl, attr_get-put_negative (flush_path c key) now key)
positive-Agrees c now key (some a) b e v = elim (Bool-cases (a.version == b.version)) [
  | inl y ↦
      let q : a ≡ b = v (ground (arith, y)) in
      rw y (
        ap (λ z. answered z) (sym q),
        stamped_get c now key c.validity.epoch ∙ e ∙ ap (λ z. positive z) (sym q),
      )
  | inr n ↦ rw n (refl, attr_get-put_positive (flush_path c key) now key a)
]

lookup_cached-Agrees :
    (c : CachedBackend) (now : ℕ) (key : Bytes) (server : Option NodeAttr)
    (cached : Cached NodeAttr)
    → attr_get c now key ≡ cached
    → is_trusted c.validity false key ≡ false
    → Versioned cached server
    → Agrees now key server (lookup_cached c now false key (check_of server) (served server) cached)
lookup_cached-Agrees c now key server missed e u v =
    primed-Agrees (attr_expire c now key) now key server
lookup_cached-Agrees c now key server negative e u v = rw u (negative-Agrees c now key server e v)
lookup_cached-Agrees c now key server (positive b) e u v =
    rw u (positive-Agrees c now key server b e v)

-- Where the cache may not be trusted for a path, and versions tell attributes apart, a lookup answers
-- what the server has, whatever the cache held, and the cache then holds the same.
pub cached_attr_lookup-Agrees :
    (c : CachedBackend) (now : ℕ) (key : Bytes) (server : Option NodeAttr)
    → is_trusted c.validity false key ≡ false
    → Versioned (attr_get c now key) server
    → Agrees now key server (cached_attr_lookup c now false key (check_of server) (served server))
unfolding cached_attr_lookup
cached_attr_lookup-Agrees c now key server u v =
    lookup_cached-Agrees c now key server (attr_get c now key) refl u v

-- The lookup that finds a changed directory.
looked_up :
    (c : CachedBackend) (now : ℕ) (p : Bytes) (a b : NodeAttr) (inner : Answer NodeAttr)
    → is_trusted c.validity false p ≡ false
    → attr_get c now p ≡ positive b
    → (a.version == b.version) ≡ false
    → (cached_attr_lookup c now false p (check_of (some a)) inner).0
      ≡ put_positive (flush_path c p) now p a
unfolding cached_attr_lookup revalidate
looked_up c now p a b inner u e n = rw (e, u, n) refl

dir_get-flush_path :
    (c : CachedBackend) (now : ℕ) (p : Bytes) (a : NodeAttr)
    → path_parent p ≢ p
    → dir_get (put_positive (flush_path c p) now p a) now p ≡ dir_get c now p
unfolding dir_get put_positive flush_path
dir_get-flush_path c now p a h =
    ap (λ l. dir_hit c.cfg now l) (get-del_ne Bytes-discrete c.dir (path_parent p) p h)

trusted-flush_path :
    (c : CachedBackend) (now : ℕ) (p : Bytes) (a : NodeAttr)
    → is_trusted (put_positive (flush_path c p) now p a).validity false p
      ≡ is_trusted c.validity false p
unfolding put_positive flush_path
trusted-flush_path c now p a = refl

stamped_dir :
    (c : CachedBackend) (now : ℕ) (key : Bytes) (epoch : ℕ)
    → dir_get (revalidate c now key epoch not_modified).0 now key ≡ dir_get c now key
unfolding dir_get revalidate
stamped_dir c now key epoch = refl

list_dir-verified :
    (c : CachedBackend) (now : ℕ) (p : Bytes) (a : NodeAttr) (l : List DirEntry)
    (listing : Answer (List DirEntryPlus))
    → is_trusted c.validity false p ≡ false
    → attr_get c now p ≡ positive a
    → dir_get c now p ≡ some l
    → (list_dir c now false p (check_of (some a)) listing).1 ≡ answered (plus_from_entries l)
unfolding list_dir revalidate
list_dir-verified c now p a l listing u e d =
    let same : (a.version == a.version) ≡ true = ground arith in
    let after = stamped_dir c now p c.validity.epoch ∙ d in
    rw (d, u, e, same) (rw (revalidate, after) refl)

-- A lookup that finds a directory changed leaves its listing in the cache, and with the new
-- attributes the next `ListDir` takes that listing for current: it answers the entries from before
-- the change, whatever the server would list.
pub list_dir-cached_attr_lookup :
    (c : CachedBackend) (now : ℕ) (p : Bytes) (a b : NodeAttr) (l : List DirEntry)
    (inner : Answer NodeAttr) (listing : Answer (List DirEntryPlus))
    → path_parent p ≢ p
    → is_trusted c.validity false p ≡ false
    → attr_get c now p ≡ positive b
    → (a.version == b.version) ≡ false
    → dir_get c now p ≡ some l
    → let r = cached_attr_lookup c now false p (check_of (some a)) inner in
      (list_dir r.0 now false p (check_of (some a)) listing).1 ≡ answered (plus_from_entries l)
list_dir-cached_attr_lookup c now p a b l inner listing h u e n d =
    let t = put_positive (flush_path c p) now p a in
    let trusted = trusted-flush_path c now p a ∙ u in
    let found = dir_get-flush_path c now p a h ∙ d in
    rw (looked_up c now p a b inner u e n) (
      list_dir-verified t now p a l listing trusted (attr_get-put_positive (flush_path c p) now p a)
        found)
