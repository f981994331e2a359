-- ===== src/Client/Data/Counts.antt =====
-- The references that the data of a client hold (src/client.c).
use quick_io.Common.{
  ℕ, ◌+◌, ◌-◌, ◌≡◌, refl, ap, ◌∙◌, true, false, ◌==◌, if◌then◌else◌, List, [], ◌∷◌, Option, none,
  some, arith,
}
use quick_io.Client.Subs.Table.{
  lookup, put, erase, Distinct, put-Distinct, erase-Distinct, lookup-put, lookup-erase,
}
use quick_io.Client.Data.{
  Data, entries, variant_ref_sink, variant_unref, unref_old, unref_all, client_free_data,
  client_set, client_get_locked, ref_found, is_freed, alone, client_get, or_freed, client_del,
  client_has, is_there,
}

abbrev pub own : Option ℕ → ℕ → ℕ
own none v = 0
own (some w) v = if w == v then 1 else 0

-- How many entries have the value `v`.
abbrev pub held : ℕ → List (ℕ × ℕ) → ℕ
held v [] = 0
held v ((k, w) ∷ t) = own (some w) v + held v t

held-put :
    (k v w : ℕ) (t : List (ℕ × ℕ))
    → held w (put k v t) + own (lookup k t) w ≡ held w t + own (some v) w
unfolding put lookup
held-put k v w [] = omega arith
held-put k v w ((j, u) ∷ t) = ground (arith, held-put k v w t)

erase_absent : (k : ℕ) (t : List (ℕ × ℕ)) → lookup k t ≡ none → erase k t ≡ t
unfolding erase lookup
erase_absent k [] h = refl
erase_absent k ((j, w) ∷ t) h = ground (arith, erase_absent k t)

held-erase :
    (k w : ℕ) (t : List (ℕ × ℕ)) → Distinct t → held w (erase k t) + own (lookup k t) w ≡ held w t
unfolding erase lookup
held-erase k w [] d = refl
held-erase k w ((j, u) ∷ t) d = ground (arith, held-erase k w t d.1, erase_absent k t)

-- Each reference to a variant is that of an entry or one of `base`, which others hold.
pub record Balanced (base : ℕ → ℕ) (d : Data) : Type 0 where
  pub counted : (v : ℕ) → d.refs v ≡ held v (entries d.table) + base v
  pub distinct : Distinct (entries d.table)

refs-unref_old : (o : Option ℕ) (d : Data) (v : ℕ) → (unref_old o d).refs v ≡ d.refs v - own o v
refs-unref_old none d v = omega arith
refs-unref_old (some w) d v = ground arith

entries-or_freed : (t : List (ℕ × ℕ)) → entries (or_freed t) ≡ t
entries-or_freed [] = refl
entries-or_freed (x ∷ t) = refl

-- A call on the data.
pub data Op : Type 0 where
  sets : ℕ → ℕ → Op
  gets : ℕ → Op
  deletes : ℕ → Op
  frees : Op

unfoldable pub run_op : Data → Op → Data
unfolding client_set client_get client_del client_free_data
run_op d (sets key v) = client_set d key (some v)
run_op d (gets key) = (client_get alone d key).data'
run_op d (deletes key) = client_del d key
run_op d frees = client_free_data d

-- The reference of a floating variant, which `client_set` takes over.
abbrev pub sunk : Data → ℕ → ℕ → ℕ
sunk d v q = if d.floating v then own (some v) q else 0

-- What others hold before a call and behind it, if nobody else holds more than `base` in between.
abbrev pub before : (ℕ → ℕ) → Data → Op → ℕ → ℕ
before base d (sets key v) q = base q + sunk d v q
before base d (gets key) q = base q
before base d (deletes key) q = base q
before base d frees q = base q

abbrev pub behind : (ℕ → ℕ) → Data → Op → ℕ → ℕ
unfolding client_get
behind base d (sets key v) q = base q
behind base d (gets key) q = base q + own (client_get alone d key).value q
behind base d (deletes key) q = base q
behind base d frees q = base q

refs-variant_ref_sink :
    (v : ℕ) (d : Data) (q : ℕ)
    → (variant_ref_sink v d).refs q + sunk d v q ≡ d.refs q + own (some v) q
unfolding variant_ref_sink
refs-variant_ref_sink v d q = ground arith

refs-ref_found : (o : Option ℕ) (d : Data) (v : ℕ) → (ref_found o d).refs v ≡ d.refs v + own o v
refs-ref_found none d v = omega arith
refs-ref_found (some w) d v = ground arith

table-ref_found : (o : Option ℕ) (d : Data) → (ref_found o d).table ≡ d.table
table-ref_found none d = refl
table-ref_found (some v) d = refl

refs-unref_all :
    (t : List (ℕ × ℕ)) (d : Data) (v : ℕ) → (unref_all t d).refs v ≡ d.refs v - held v t
refs-unref_all [] d v = omega arith
refs-unref_all ((k, w) ∷ t) d v = ground (arith, refs-unref_all t (variant_unref w d) v)

-- If each reference to a variant is that of an entry of the table or one that others hold, this is
-- so behind every call: `client_set` keeps one reference to the new value, taking over that of a
-- floating one, and gives up the replaced one's; `client_get` gives its caller one; `client_del`
-- gives the entry's up, and freeing the client all of the table's.
pub run_op-Balanced :
    (base : ℕ → ℕ) (d : Data) (op : Op)
    → Balanced (before base d op) d
    → Balanced (behind base d op) (run_op d op)
unfolding run_op client_set client_get client_get_locked client_del client_free_data
run_op-Balanced base d (sets key v) b =
    let t = entries d.table in
    record {
      counted = λ q. omega (
        arith,
        refs-unref_old (lookup key t) (variant_ref_sink v d) q,
        refs-variant_ref_sink v d q,
        held-put key v q t,
        b.counted q,
      );
      distinct = put-Distinct key v t b.distinct;
    }
run_op-Balanced base d (gets key) b =
    let o = lookup key (entries d.table) in
    record {
      counted = λ q. rw (table-ref_found o d) (omega (arith, refs-ref_found o d q, b.counted q));
      distinct = rw (table-ref_found o d) b.distinct;
    }
run_op-Balanced base d (deletes key) b =
    let t = entries d.table in
    record {
      counted = λ q. rw (entries-or_freed (erase key t)) (
          omega
            (arith, refs-unref_old (lookup key t) d q, held-erase key q t b.distinct, b.counted q));
      distinct = rw (entries-or_freed (erase key t)) (erase-Distinct key t b.distinct);
    }
run_op-Balanced base d frees b =
    let t = entries d.table in
    record { counted = λ q. omega (arith, refs-unref_all t d q, b.counted q); distinct = tt }

-- What a key leads to behind a call.
abbrev pub leads : Op → ℕ → Option ℕ → Option ℕ
leads (sets key v) q old = if key == q then some v else old
leads (gets key) q old = old
leads (deletes key) q old = if key == q then none else old
leads frees q old = none

-- The data are a map: a key that was set leads to its value, one that was deleted to nothing, none of
-- `client_set`, `client_get` and `client_del` touches another key, a client that is freed has none, and `client_has` says of each key whether it leads to something.
pub run_op-leads :
    (d : Data) (op : Op) (q : ℕ)
    → (client_get_locked (run_op d op) q ≡ leads op q (client_get_locked d q))
      × (client_has (run_op d op) q ≡ is_there (leads op q (client_get_locked d q)))
unfolding run_op client_set client_get client_get_locked client_del client_has client_free_data
    lookup
run_op-leads d (sets key v) q = let e = lookup-put key q v (entries d.table) in (e, ap is_there e)
run_op-leads d (gets key) q =
    let e =
      ap (λ (t : Option (List (ℕ × ℕ))). lookup q (entries t))
        (table-ref_found (lookup key (entries d.table)) d) in
    (e, ap is_there e)
run_op-leads d (deletes key) q =
    let e =
      ap (lookup q) (entries-or_freed (erase key (entries d.table)))
      ∙ lookup-erase key q (entries d.table) in
    (e, ap is_there e)
run_op-leads d frees q = (refl, refl)

-- `client_get` with no other thread in between refers to a value that is not freed. Where the table has
-- the only reference to the value of the key and nobody else one, and another thread deletes the key
-- between the lock and the reference, `client_get` returns the value too late: it is freed by then.
pub client_get-client_del :
    (base : ℕ → ℕ) (d : Data) (key v : ℕ)
    → Balanced base d
    → client_get_locked d key ≡ some v
    → held v (entries d.table) ≡ 1
    → base v ≡ 0
    → ((client_get alone d key).too_late ≡ false)
      × ((client_get (λ e. client_del e key) d key).value ≡ some v)
      × ((client_get (λ e. client_del e key) d key).too_late ≡ true)
unfolding client_get client_del
client_get-client_del base d key v b found one nobody =
    let refs : d.refs v ≡ 1 = omega (arith, b.counted v) in
    let gone : (client_del d key).refs v ≡ 0 =
      refs-unref_old (client_get_locked d key) d v
      ∙ ap (λ (o : Option ℕ). d.refs v - own o v) found
      ∙ ground (arith, refs) in
    (
      ap (λ (o : Option ℕ). is_freed o d) found ∙ ground (arith, refs),
      found,
      ap (λ (o : Option ℕ). is_freed o (client_del d key)) found ∙ ground (arith, gone),
    )
