-- ===== src/Apps/Whole.antt =====
-- Which configurations src/apps.c loads, and what is called from the first application to the exit.
use mathlib.Core.Path.{subst}
use quick_io.Common.{
  ◌↔◌, ℕ, ◌≡◌, refl, sym, ap, ◌∙◌, Bool, true, false, not, List, [], ◌∷◌, ◌++◌, append-nil,
  append_assoc, Option, none, some, Bytes, codes,
}
use quick_io.Apps.{
  Modules, App, AppEvent, calls, frees, Outcome, ok, aborted, ◌>>=◌, required, assert, Loaded,
  full_path, is_magic, has_module, add_app, add_all, exit_all, cleanup, no_apps,
}

-- A chain that ends well passed its first part.
>>=-ok {ℓ κ} :
    {B : Type κ} {A : Type ℓ} {last : B} (next : A → Outcome B) (first : Outcome A)
    → (first >>= next) ≡ ok last
    → (a : A) × (next a ≡ ok last) × (first ≡ ok a)
>>=-ok next aborted h = cc
>>=-ok next (ok a) h = (a, h, refl)

required-eq-ok {ℓ} : {A : Type ℓ} (o : Option A) {a : A} → required o ≡ ok a → o ≡ some a
required-eq-ok none h = cc
required-eq-ok (some b) h = cc

assert-eq-ok : (b : Bool) {u : Unit {0}} → assert b ≡ ok u → b ≡ true
assert-eq-ok true h = refl
assert-eq-ok false h = cc

not-false : (b : Bool) → not b ≡ true → b ≡ false
not-false true h = cc
not-false false h = refl

ok-inj {ℓ} : {A : Type ℓ} {a b : A} → ok a ≡ ok b → a ≡ b
ok-inj h = cc

-- What has happened once the applications are loaded, and what happens at the exit.
abbrev pub inits : List App → List AppEvent
inits [] = []
inits (a ∷ as') = calls a.init ∷ inits as'

abbrev pub exits : List App → List AppEvent
exits [] = []
exits (a ∷ as') = calls a.exit ∷ (frees a.name ∷ exits as')

abbrev pub with_app : Loaded → App → Loaded
with_app l a = record { apps = l.apps ++ a ∷ []; events = l.events ++ calls a.init ∷ [] }

module _ (modules : Modules) (answers : ℕ → Bool) where
  -- The entry of a configuration leads to an application that is not loaded yet.
  pub record Fits (loaded : List App) (name path : Bytes) (a : App) : Type 0 where
    pub named : a.name ≡ name
    pub opens : modules.open_module (full_path path) ≡ some a.mod'
    pub new : has_module a.mod' loaded ≡ false
    pub genuine : is_magic (modules.magic_of a.mod') ≡ true
    pub init_there : modules.symbol a.mod' (codes "__qio_app_init") ≡ some a.init
    pub exit_there : modules.symbol a.mod' (codes "__qio_app_exit") ≡ some a.exit
    pub starts : answers a.init ≡ true

  -- The entries lead to the applications, one by one.
  abbrev pub Loads : List App → List (Bytes × Bytes) → List App → Type 0
  Loads loaded [] [] = Unit
  Loads loaded [] (a ∷ as') = ⊥
  Loads loaded (entry ∷ rest) [] = ⊥
  Loads loaded ((name, path) ∷ rest) (a ∷ as') =
      Fits loaded name path a × Loads (loaded ++ a ∷ []) rest as'

  add_app-Fits :
      (l : Loaded) (name path : Bytes) (a : App)
      → Fits l.apps name path a
      → add_app modules answers l name path ≡ ok (with_app l a)
  unfolding add_app
  add_app-Fits l name path a f =
      rw (f.opens, f.new, f.genuine, f.init_there, f.exit_there, f.starts)
        (ap (λ (n : Bytes). ok (with_app l (record a { name = n }))) (sym f.named))

  Fits-add_app :
      (l l' : Loaded) (name path : Bytes)
      → add_app modules answers l name path ≡ ok l'
      → (a : App) × Fits l.apps name path a × (l' ≡ with_app l a)
  unfolding add_app
  Fits-add_app l l' name path h =
      let (m, h1, opens) = >>=-ok _ (required (modules.open_module (full_path path))) h in
      let (u, h2, new) = >>=-ok _ (assert (not (has_module m l.apps))) h1 in
      let (v, h3, genuine) = >>=-ok _ (assert (is_magic (modules.magic_of m))) h2 in
      let (init, h4, init_there) =
        >>=-ok _ (required (modules.symbol m (codes "__qio_app_init"))) h3 in
      let (exit, h5, exit_there) =
        >>=-ok _ (required (modules.symbol m (codes "__qio_app_exit"))) h4 in
      let (w, h6, starts) = >>=-ok _ (assert (answers init)) h5 in
      (
        record { name = name; mod' = m; init = init; exit = exit },
        record {
          named = refl;
          opens = required-eq-ok (modules.open_module (full_path path)) opens;
          new = not-false (has_module m l.apps) (assert-eq-ok (not (has_module m l.apps)) new);
          genuine = assert-eq-ok (is_magic (modules.magic_of m)) genuine;
          init_there = required-eq-ok (modules.symbol m (codes "__qio_app_init")) init_there;
          exit_there = required-eq-ok (modules.symbol m (codes "__qio_app_exit")) exit_there;
          starts = assert-eq-ok (answers init) starts;
        },
        sym (ok-inj h6),
      )

  abbrev with_apps : Loaded → List App → Loaded
  with_apps l as' = record { apps = l.apps ++ as'; events = l.events ++ inits as' }

  with_none : (l : Loaded) → l ≡ with_apps l []
  with_none l =
      ap (λ (x : List App). record l { apps = x }) (sym (append-nil l.apps))
      ∙ ap (λ (x : List AppEvent). record { apps = l.apps ++ []; events = x })
          (sym (append-nil l.events))

  with_more :
      (l : Loaded) (a : App) (as' : List App) → with_apps (with_app l a) as' ≡ with_apps l (a ∷ as')
  with_more l a as' =
      ap
        (λ (x : List App). record {
          apps = x;
          events = (l.events ++ calls a.init ∷ []) ++ inits as';
        })
        (append_assoc l.apps (a ∷ []) as')
      ∙ ap (λ (x : List AppEvent). record { apps = l.apps ++ a ∷ as'; events = x })
          (append_assoc l.events (calls a.init ∷ []) (inits as'))

  add_all-Loads :
      (l : Loaded) (conf : List (Bytes × Bytes)) (as' : List App)
      → Loads l.apps conf as'
      → add_all modules answers l conf ≡ ok (with_apps l as')
  unfolding add_all
  add_all-Loads l [] [] h = ap ok (with_none l)
  add_all-Loads l [] (a ∷ as') h = absurd h
  add_all-Loads l ((name, path) ∷ rest) [] h = absurd h
  add_all-Loads l ((name, path) ∷ rest) (a ∷ as') h =
      rw (add_app-Fits l name path a h.0)
        (add_all-Loads (with_app l a) rest as' h.1 ∙ ap ok (with_more l a as'))

  Loads-add_all :
      (l l' : Loaded) (conf : List (Bytes × Bytes))
      → add_all modules answers l conf ≡ ok l'
      → (as' : List App) × Loads l.apps conf as' × (l' ≡ with_apps l as')
  unfolding add_all
  Loads-add_all l l' [] h = ([], tt, sym (ok-inj h) ∙ with_none l)
  Loads-add_all l l' ((name, path) ∷ rest) h =
      let (l1, h1, adds) = >>=-ok _ (add_app modules answers l name path) h in
      let (a, fits, e) = Fits-add_app l l1 name path adds in
      let (as', loads, e') =
        Loads-add_all (with_app l a) l' rest
          (subst (λ (x : Loaded). add_all modules answers x rest ≡ ok l') e h1) in
      (a ∷ as', (fits, loads), e' ∙ with_more l a as')

  -- Every application says that it has ended.
  abbrev pub Ends : List App → Type 0
  Ends [] = Unit
  Ends (a ∷ as') = (answers a.exit ≡ true) × Ends as'

  exit_all-Ends : (as' : List App) → Ends as' → exit_all modules answers as' ≡ ok (exits as')
  unfolding exit_all
  exit_all-Ends [] h = refl
  exit_all-Ends (a ∷ as') h = rw (h.0, exit_all-Ends as' h.1) refl

  Ends-exit_all :
      (as' : List App) (events : List AppEvent)
      → exit_all modules answers as' ≡ ok events
      → Ends as' × (events ≡ exits as')
  unfolding exit_all
  Ends-exit_all [] events h = (tt, sym (ok-inj h))
  Ends-exit_all (a ∷ as') events h =
      let (u, h1, ended) = >>=-ok _ (assert (answers a.exit)) h in
      let (rest, h2, all) = >>=-ok _ (exit_all modules answers as') h1 in
      let (ends, e) = Ends-exit_all as' rest all in
      (
        (assert-eq-ok (answers a.exit) ended, ends),
        sym (ok-inj h2) ∙ ap (λ (x : List AppEvent). calls a.exit ∷ (frees a.name ∷ x)) e,
      )

  -- From the start of the process to its exit.
  abbrev pub whole : List (Bytes × Bytes) → Outcome Loaded
  whole conf = do l ← add_all modules answers no_apps conf; cleanup modules answers l

  abbrev pub ended : List App → Loaded
  ended as' = record { apps = []; events = inits as' ++ exits as' }

  abbrev at_end : List AppEvent → List AppEvent → Loaded
  at_end before after = record { apps = []; events = before ++ after }

  -- For any configuration: the process goes from its start to its exit without a failed ASSERT
  -- exactly when the entries lead, one by one, to applications that are not loaded yet, have the
  -- magic number and both functions, start, and in the end say that they ended. What then happened
  -- is that each was started once, in the order of the configuration, and then each was ended and
  -- freed once, in the same order; none is left.
  pub whole-Loads :
      (conf : List (Bytes × Bytes)) (l : Loaded)
      → (whole conf ≡ ok l) ↔ ((as' : List App) × Loads [] conf as' × Ends as' × (l ≡ ended as'))
  unfolding cleanup
  whole-Loads conf l = (there, back)
    where
      there : whole conf ≡ ok l → (as' : List App) × Loads [] conf as' × Ends as' × (l ≡ ended as')
      there h =
          let (l1, h1, adds) = >>=-ok _ (add_all modules answers no_apps conf) h in
          let (as', loads, e) = Loads-add_all no_apps l1 conf adds in
          let (events, h2, exits') = >>=-ok _ (exit_all modules answers l1.apps) h1 in
          let (ends, e') = Ends-exit_all l1.apps events exits' in
          (
            as',
            loads,
            subst Ends (ap (λ (x : Loaded). x.apps) e) ends,
            sym (ok-inj h2)
                ∙ ap (λ (x : List AppEvent). at_end l1.events x) e'
                ∙ ap (λ (x : Loaded). at_end x.events (exits x.apps)) e,
          )

      back : (as' : List App) × Loads [] conf as' × Ends as' × (l ≡ ended as') → whole conf ≡ ok l
      back (as', loads, ends, e) =
          rw (add_all-Loads no_apps conf as' loads, exit_all-Ends as' ends) (ap ok (sym e))
