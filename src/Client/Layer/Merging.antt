-- ===== src/Client/Layer/Merging.antt =====
-- What a client reads on a delegated path.
use g_mountie.Prelude.{
  ℕ, ◌+◌, ◌≡◌, refl, ◌∙◌, ap, true, false, List, [], ltb, length, All, get, Bytes, Bytes-discrete,
  arith, Bool-cases, Option-cases, sym, ◌≤◌, ◌<◌, inl, inr,
}
use g_mountie.Client.Log.{Op}
use g_mountie.Client.Manager.{Manager, is_delegated}
use g_mountie.Client.Overlay.{Time, Overlay}
use g_mountie.Client.Overlay.Content.{byte_at, byte_at-take}
use g_mountie.Client.Overlay.Apply.{reset}
use g_mountie.Client.Overlay.Merge.{read_merge}
use g_mountie.Client.Overlay.Refines.{written, WritesOrElsewhere, reset_refines}
use g_mountie.Client.Layer.{Answer, failed, answered, has, layer_read}

-- The bytes that a read was answered, none if it failed.
abbrev pub bytes_of : Answer Bytes → Bytes
bytes_of (failed e) = []
bytes_of (answered b) = b

not_has :
    (ov : Overlay) (path : Bytes) (off : ℕ) (base : Bytes)
    → has ov path ≡ false
    → read_merge ov path off base ≡ base
unfolding has read_merge
not_has ov path off base h = elim (Option-cases (get Bytes-discrete ov.nodes path)) [
  | inl n ↦ rw (n, read_merge) refl
  | inr (x, q) ↦ absurd (ground (arith, (rw (q, has) at h)))
]

-- A read of a delegated path whose pending state is that of a log, where each operation is a write,
-- or is on another path and is no rename, and the server answers no more than asked for: every byte
-- within the caller's room is what the log's writes make of the byte that the server answered.
pub layer_read_refines :
    (m : Manager) (ops : List Op) (now : Time) (path : Bytes) (off room : ℕ) (base : Bytes) (i : ℕ)
    → All (WritesOrElsewhere path) ops
    → is_delegated m path ≡ true
    → length base ≤ room
    → i < room
    → byte_at (bytes_of (layer_read m (reset ops now) path off room (answered base))) i
      ≡ written path (off + i) ops (byte_at base i)
unfolding layer_read
layer_read_refines m ops now path off room base i w d fits inside =
    let ov = reset ops now in
    let refines = reset_refines ops now path off base i w in
    elim (Bool-cases (has ov path)) [
      | inl y ↦
          let near : ltb i room ≡ true = ground (arith, inside) in
          rw (d, y, layer_read)
            (byte_at-take room (read_merge ov path off base) i ∙ rw near refines)
      | inr n ↦
          rw (d, n, layer_read) (ap (λ b. byte_at b i) (sym (not_has ov path off base n)) ∙ refines)
    ]
