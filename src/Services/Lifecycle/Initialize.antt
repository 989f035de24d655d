-- ===== src/Services/Lifecycle/Initialize.antt =====
-- `initialize`: which services are active after it, on every path, and that no service is
-- initialised before the services it depends on are active.
use yasin_core.Prelude.{
  String, ◌≡◌, refl, ap, ◌∙◌, true, false, ◌⊎◌, List, [], ◌∷◌, ◌++◌, arith, ◌==◌, eq_iff, eq_refl,
  inl, inr, Option, none, some,
}
use yasin_core.Prelude.Counting.{elem}
use yasin_core.Dict
use yasin_core.Dict.{Dict, get-put}
use yasin_core.Services.{
  active, failed, initializing, ServiceError, initialization_failed, Manager, Result, ok, err,
  Hosting, initialize,
}
use yasin_core.Services.Lifecycle.{set_state, Host, call_on, settle, initialize_one, initialize_all}

module _ (hosting : Hosting) where
  -- One round changes the state of its own service only, and leaves the registrations alone.
  record Round (name : String) (host : Host hosting) (result : Result (Unit {0}))
      (host' : Host hosting) : Type 0 where
    services_kept : host'.0.services ≡ host.0.services
    metadata_kept : host'.0.metadata ≡ host.0.metadata
    flag_kept : host'.0.is_initialized ≡ host.0.is_initialized
    others :
        (n : String) → (name == n) ≡ false → Dict.get host'.0.states n ≡ Dict.get host.0.states n
    settled :
        ((result ≡ ok tt) × (Dict.get host'.0.states name ≡ some active))
        ⊎ ((message : String) × (result ≡ err (initialization_failed name message))
            × (Dict.get host'.0.states name ≡ some failed))

  settle-Round :
      (name : String) (m : Manager hosting.Service) (outcome : Option String) (w w' : hosting.World)
      → let (result, host') = settle hosting name (set_state m name initializing) (outcome, w') in
        Round name (m, w) result host'
  unfolding settle
  settle-Round name m none w w' = record {
    services_kept = refl;
    metadata_kept = refl;
    flag_kept = refl;
    others = λ n h. simp get-put (rw h);
    settled = inl (refl, simp (get-put, eq_refl));
  }
  settle-Round name m (some message) w w' = record {
    services_kept = refl;
    metadata_kept = refl;
    flag_kept = refl;
    others = λ n h. simp get-put (rw h);
    settled = inr (message, refl, simp (get-put, eq_refl));
  }

  initialize_one-Round :
      (name : String) (host : Host hosting)
      → let (result, host') = initialize_one hosting name host in Round name host result host'
  unfolding initialize_one
  initialize_one-Round name (m, w) =
      let (outcome, w') = call_on hosting initialize name (set_state m name initializing, w) in
      settle-Round name m outcome w w'

  pub initialize_all-ok :
      (name : String) (names : List String) (host : Host hosting)
      → (initialize_one hosting name host).0 ≡ ok tt
      → initialize_all hosting (name ∷ names) host
        ≡ initialize_all hosting names (initialize_one hosting name host).1
  unfolding initialize_all
  initialize_all-ok name names host h = rw (h, initialize_all)

  pub initialize_all-err :
      (name : String) (names : List String) (host : Host hosting) (e : ServiceError)
      → (initialize_one hosting name host).0 ≡ err e
      → initialize_all hosting (name ∷ names) host ≡ (err e, (initialize_one hosting name host).1)
  unfolding initialize_all
  initialize_all-err name names host e h = rw (h, initialize_all)

  -- Everything that was started is active, the first service that raised is failed, and all behind
  -- it are as they were.
  abbrev pub StoppedAt : List String → Host hosting → Result (Unit {0}) → Host hosting → Type 0
  StoppedAt names host result host' =
      (before : List String) × (name : String) × (after : List String) × (message : String) × (names
        ≡ before ++ name ∷ after)
      × (result ≡ err (initialization_failed name message))
      × (Dict.get host'.0.states name ≡ some failed)
      × ((n : String)
          → elem n before ≡ true
          → (name == n) ≡ false
          → Dict.get host'.0.states n ≡ some active)
      × ((n : String)
          → elem n before ≡ false
          → (name == n) ≡ false
          → Dict.get host'.0.states n ≡ Dict.get host.0.states n)

  pub record Pass (names : List String) (host : Host hosting) (result : Result (Unit {0}))
      (host' : Host hosting) : Type 0 where
    pub services_kept : host'.0.services ≡ host.0.services
    pub metadata_kept : host'.0.metadata ≡ host.0.metadata
    pub flag_kept : host'.0.is_initialized ≡ host.0.is_initialized
    pub others :
        (n : String) → elem n names ≡ false → Dict.get host'.0.states n ≡ Dict.get host.0.states n
    pub outcome :
        ((result ≡ ok tt)
          × ((n : String) → elem n names ≡ true → Dict.get host'.0.states n ≡ some active))
        ⊎ StoppedAt names host result host'

  Pass-cons :
      (x : String) (names : List String) (host host1 host' : Host hosting)
      (result : Result (Unit {0}))
      → Round x host (ok tt) host1
      → Dict.get host1.0.states x ≡ some active
      → Pass names host1 result host'
      → Pass (x ∷ names) host result host'
  unfolding elem
  Pass-cons x names host host1 host' result r started p = record {
    services_kept = p.services_kept ∙ r.services_kept;
    metadata_kept = p.metadata_kept ∙ r.metadata_kept;
    flag_kept = p.flag_kept ∙ r.flag_kept;
    others = λ n h. p.others n (ground (arith, h)) ∙ r.others n (ground (arith, h));
    outcome = elim p.outcome [
      | inl (fine, all) ↦
          inl (fine, λ n h. ground (arith, h, all n, p.others n, started, eq_iff x n))
      | inr (before, name, after, message, split, raised, fails, act, same) ↦ inr (
        x ∷ before,
        name,
        after,
        message,
        ap (λ l. x ∷ l) split,
        raised,
        fails,
        λ n h ne. ground (arith, h, ne, act n, same n, started, eq_iff x n),
        λ n h ne. ground (arith, h, ne, same n, r.others n),
      )
    ];
  }

  Pass-err :
      (x message : String) (names : List String) (host host1 : Host hosting)
      → Round x host (err (initialization_failed x message)) host1
      → Dict.get host1.0.states x ≡ some failed
      → Pass (x ∷ names) host (err (initialization_failed x message)) host1
  unfolding elem
  Pass-err x message names host host1 r fails = record {
    services_kept = r.services_kept;
    metadata_kept = r.metadata_kept;
    flag_kept = r.flag_kept;
    others = λ n h. r.others n (ground (arith, h));
    outcome =
        inr (
          [],
          x,
          names,
          message,
          refl,
          refl,
          fails,
          λ n h ne. absurd (cc),
          λ n h ne. r.others n ne,
        );
  }

  pub initialize_all-Pass :
      (names : List String) (host : Host hosting)
      → let (result, host') = initialize_all hosting names host in Pass names host result host'
  unfolding initialize_all elem
  initialize_all-Pass [] host = record {
    services_kept = refl;
    metadata_kept = refl;
    flag_kept = refl;
    others = λ n h. refl;
    outcome = inl (refl, λ n h. absurd (cc));
  }
  initialize_all-Pass (x ∷ names) host =
      let r = initialize_one-Round x host in
      let host1 = (initialize_one hosting x host).1 in
      elim r.settled [
        | inl (fine, started) ↦ rw (initialize_all-ok x names host fine) (
            Pass-cons x names host host1 _ _ (rw fine at r) started
              (initialize_all-Pass names host1))
        | inr (message, raised, fails) ↦
            rw (initialize_all-err x names host (initialization_failed x message) raised)
              (Pass-err x message names host host1 (rw raised at r) fails)
      ]
