-- ===== src/Delegation/Tests.antt =====
-- Runs of the table and the arbiter on small tables, and the theorems at them.
use g_mountie.Prelude.{
  ℕ, ◌<◌, ◌≡◌, ◌≢◌, refl, arith, true, false, none, some, [], ◌∷◌, ltb, get, ◌+◌, ◌^◌, Bytes,
  Bytes-discrete, ℕ_discrete, All, same,
}
use g_mountie.Paths.{has_prefix, is_empty, contains}
use g_mountie.Watermark.{Store, key_bytes, get_record, has_gen, revoke_gen, next_gen}
use g_mountie.Delegation.Table.{
  Entry, Table, owner_of, insert_string, sort_strings, grant_scan, Granted, grant, entry_for_root,
}
use g_mountie.Delegation.Table.Order.{Yields}
use g_mountie.Delegation.Table.Ownership.{owner_name}
use g_mountie.Delegation.Table.Carving.{Foreign, grant_carves}
use g_mountie.Delegation.Cooldown.{
  CooldownConfig, CooldownTable, next_window, cooling, sweep, sweep_entries,
}
use g_mountie.Delegation.Cooldown.Windows.{cooling-sweep}
use g_mountie.Delegation.Arbiter.{
  Arbiter, new_arbiter, fence_key, request, finish_mutation, release_session, is_recalling,
}
use g_mountie.Delegation.Arbiter.Handoff.{Fenced, finish_hands_off, release_session_fences}
use g_mountie.Delegation.Arbiter.Requests.{requests, here, next}
use g_mountie.Delegation.Arbiter.Races.{reached_owner_of, regrant_lost}

abbrev a : Bytes
a = 97 ∷ []

abbrev a_b : Bytes
a_b = 97 ∷ 47 ∷ 98 ∷ []

abbrev a_c : Bytes
a_c = 97 ∷ 47 ∷ 99 ∷ []

abbrev entry : ℕ → Bytes → ℕ → Entry
entry owner root gen = record {
  owner = owner ∷ [];
  root = root;
  principal = owner ∷ [];
  volume = 118 ∷ [];
  epoch = 101 ∷ [];
  gen = gen;
}

-- Session 1 holds a/b, session 2 asks for a.
abbrev held : Table
held = entry 1 a_b 1 ∷ []

abbrev carved_out : Granted
carved_out = record { root = a; excluded = a_b ∷ []; table = entry 1 a_b 1 ∷ entry 2 a 1 ∷ [] }

grant-held : grant held (entry 2 a 1) ≡ some carved_out
unfolding grant grant_scan contains has_prefix is_empty Bytes-discrete ℕ_discrete sort_strings
    insert_string
grant-held = refl

grant_carves_example : Foreign (2 ∷ []) (owner_name carved_out.table a_b)
unfolding contains has_prefix is_empty Bytes-discrete ℕ_discrete
grant_carves_example = grant_carves held (entry 2 a 1) a_b (tt, tt) grant-held refl

abbrev cfg : CooldownConfig
cfg = record { base = 10; max_window = 60; cap = 2 }

abbrev cold : CooldownTable
cold = record {
  cfg = cfg;
  entries =
      (a, record { until = 25; window = 20 }) ∷ (a_b, record { until = 12; window = 10 }) ∷ [];
}

cooling-sweep_example : cooling (sweep cold 15) a 20 ≡ cooling cold a 20
unfolding get Bytes-discrete ℕ_discrete
cooling-sweep_example = cooling-sweep cold a 15 20 (refl, (refl, tt)) (omega arith)

-- The arbiter that holds the table, and a store whose counter has issued the generation.
abbrev log_store : Store
log_store =
    (1 ∷ 0 ∷ 118 ∷ 0 ∷ 101 ∷ [], record { watermark = 5; revoked_gens = []; gen_hi = 1 }) ∷ []

abbrev busy : Arbiter
busy = record { table = held; cooldown = cold; regions = a_b ∷ []; store = log_store }

finish_hands_off_example :
    let b = (finish_mutation true busy a_b (some (entry 1 a_b 1)) none 30).0 in
    Fenced b.store (entry 1 a_b 1)
    × (entry_for_root b.table a_b ≡ none)
    × (cooling b.cooldown a_b 45
        ≡ ltb 45 (30 + next_window cfg (get Bytes-discrete cold.entries a_b)))
    × (is_recalling b a_b ≡ false)
finish_hands_off_example =
    finish_hands_off true busy a_b (entry 1 a_b 1) none 30 45
      (unfold finish_mutation in
        unfold revoke_gen in
        unfold get_record in
        unfold key_bytes in unfold get in unfold Bytes-discrete in unfold ℕ_discrete in refl)
      (omega arith)

release_session_fences_example :
    let b = release_session (λ _. true) busy (1 ∷ []) in
    All (λ e. same e.owner (1 ∷ []) ≡ false) b.table
    × All
        (λ e. same e.owner (1 ∷ []) ≡ true → true ≡ true → 0 < e.gen → Fenced b.store e)
        busy.table
release_session_fences_example = release_session_fences (λ _. true) busy (1 ∷ [])

-- Session 1 asks again for the root that is being recalled from it.
again_granted : (request true busy (entry 1 a_b 0) 30).1.granted_root ≢ []
unfolding request sweep sweep_entries cooling next_gen get_record key_bytes get Bytes-discrete
    ℕ_discrete grant grant_scan contains has_prefix is_empty sort_strings
again_granted = λ q. ground (arith, q)

counter_room : (get_record log_store (fence_key (entry 1 a_b 0))).gen_hi + 1 < 2 ^ 64
unfolding get_record key_bytes get Bytes-discrete ℕ_discrete
counter_room = omega arith

abbrev fresh_arbiter : Arbiter
fresh_arbiter = new_arbiter cfg log_store

reached_owner_of_example :
    All (Yields a_b (1 ∷ []) a_b) (request true fresh_arbiter (entry 1 a_b 0) 30).0.table
reached_owner_of_example =
    reached_owner_of cfg log_store (request true fresh_arbiter (entry 1 a_b 0) 30).0 a_b (1 ∷ [])
      a_b (next here (requests true (entry 1 a_b 0) 30))
      (unfold request in
        unfold sweep in
        unfold sweep_entries in
        unfold cooling in
        unfold next_gen in
        unfold grant in
        unfold grant_scan in
        unfold sort_strings in
        unfold owner_of in
        unfold contains in
        unfold is_empty in unfold get in unfold Bytes-discrete in unfold ℕ_discrete in refl)

regrant_lost_example :
    let (b, g) = request true busy (entry 1 a_b 0) 30 in
    let c = finish_mutation true b a_b (some (entry 1 a_b 1)) none 31 in
    (c.1 ≡ none)
    × (entry_for_root c.0.table g.granted_root ≡ none)
    × (has_gen g.gen (get_record c.0.store (fence_key (entry 1 a_b 0))).revoked_gens ≡ false)
regrant_lost_example =
    regrant_lost busy (entry 1 a_b 1) (entry 1 a_b 0) 30 31 (omega arith)
      (unfold get_record in
        unfold key_bytes in unfold get in unfold Bytes-discrete in unfold ℕ_discrete in omega arith)
      counter_room refl refl again_granted
      (unfold request in
        unfold sweep in
        unfold sweep_entries in
        unfold cooling in
        unfold next_gen in
        unfold get_record in
        unfold key_bytes in
        unfold grant in
        unfold grant_scan in
        unfold sort_strings in
        unfold contains in
        unfold is_empty in unfold get in unfold Bytes-discrete in unfold ℕ_discrete in refl)
