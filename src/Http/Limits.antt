-- ===== src/Http/Limits.antt =====
-- How many login attempts a host gets.
use quire_server.Base.{
  ℕ, suc, ◌+◌, ◌≤◌, ◌≡◌, ◌≢◌, refl, ap, ◌∙◌, subst, Bool, false, ◌&&◌, Option, none, some, List, [],
  ◌∷◌, Text, length, All, ltb, leb, ◌==◌, text_eq, nat_eq, eq_iff, if◌then◌else◌, find, upsert,
  find-upsert, arith, Bool-cases, Option-cases, inl, inr,
}
use quire_server.Http.{LoginWindow, Attempts, current, minute, attempt, allow_login}

module _ (split_host : Text → Option Text) where
  abbrev pub host_of : Text → Text
  host_of remote = elim (split_host remote) [ none ↦ remote | some h ↦ h ]

  -- The attempts of a host that are allowed in a run of attempts of any hosts, each at its time.
  unfoldable pub allowed : Text → List (Text × ℕ) → Attempts → ℕ
  unfolding allow_login
  allowed host [] t = 0
  allowed host ((remote, now) ∷ calls) t =
      let next = allow_login split_host remote now t in
      let more = allowed host calls next.0 in
      if next.1 && host_of remote == host then suc more else more

  find-current :
      (host : Text) (now : ℕ) (t : Attempts) (w : LoginWindow)
      → find host t ≡ some w
      → now ≤ w.until
      → find host (current now t) ≡ some w
  unfolding find current
  find-current host now [] w h le = cc
  find-current host now ((k, v) ∷ t) w h le = elim (Bool-cases (k == host)) [
    | inl same ↦
        let v_eq : v ≡ w = cc (simp same at h) in
        let le' : now ≤ v.until = rw v_eq le in
        let on : ltb v.until now ≡ false = ground arith in simp (on, same) (ap (λ x. some x) v_eq)
    | inr other ↦ ground (arith, find-current host now t w (simp other at h) le)
  ]

  -- What one call does to the window of a host that is not over: the count grows with each attempt of
  -- the host that is allowed, up to 10.
  pub record IsCounted (host : Text) (w : LoginWindow) (next : Attempts × Bool) (mine : Bool)
      : Type 0 where
    pub window : LoginWindow
    pub found : find host next.0 ≡ some window
    pub same_end : window.until ≡ w.until
    pub counted : window.count ≡ (if next.1 && mine then w.count + 1 else w.count)
    pub room : window.count ≤ 10

  attempt-IsCounted :
      (host at : Text) (w v : LoginWindow) (t : Attempts)
      → find host t ≡ some w
      → (at ≡ host → v ≡ w)
      → w.count ≤ 10
      → IsCounted host w (attempt at v t) (at == host)
  unfolding attempt
  attempt-IsCounted host at w v t found own room = elim (Bool-cases (leb 10 v.count)) [
    | inl full ↦
        simp full
          (record { window = w; found = found; same_end = refl; counted = refl; room = room })
    | inr free ↦
        let v' : LoginWindow = record v { count = v.count + 1 } in
        let after = find-upsert at host v' t in
        elim (Bool-cases (at == host)) [
          | inl mine ↦
              let v_eq : v ≡ w = own ((eq_iff at host).0 mine) in
              let hit : find host (upsert at v' t) ≡ some v' = simp mine at after in
              simp (free, mine)
                (record {
                  window = v';
                  found = hit;
                  same_end = ap (λ x. x.until) v_eq;
                  counted = ap (λ x. x.count + 1) v_eq;
                  room = ground arith;
                })
          | inr other ↦
              let kept : find host (upsert at v' t) ≡ some w = simp other at after ∙ found in
              simp (free, other)
                (record { window = w; found = kept; same_end = refl; counted = refl; room = room })
        ]
  ]

  allow_login-IsCounted :
      (host remote : Text) (now : ℕ) (t : Attempts) (w : LoginWindow)
      → find host t ≡ some w
      → now ≤ w.until
      → w.count ≤ 10
      → IsCounted host w (allow_login split_host remote now t) (host_of remote == host)
  unfolding allow_login
  allow_login-IsCounted host remote now t w found early room =
      let at = host_of remote in
      let u = current now t in
      let found' = find-current host now t w found early in
      elim (Option-cases (find at u)) [
        | inr (v, here) ↦
            let own : at ≡ host → v ≡ w =
              λ same. cc (subst (λ h. find h u ≡ some v) same here, found') in
            rw (here, allow_login) (attempt-IsCounted host at w v u found' own room)
        | inl missing ↦
            let apart : at ≢ host =
              λ same. cc (subst (λ h. find h u ≡ none) same missing, found') in
            elim (Bool-cases (leb 4096 (length u))) [
              | inl full ↦
                  rw (missing, allow_login)
                    (simp full (record {
                      window = w;
                      found = found';
                      same_end = refl;
                      counted = refl;
                      room = room;
                    }))
              | inr free ↦
                  let fresh : LoginWindow = record { count = 0; until = now + minute } in
                  rw (missing, allow_login)
                    (simp free (
                      attempt-IsCounted host at w fresh u found' (λ same. elim (apart same) [ ])
                        room))
            ]
      ]

  -- Until a host's window ends, no more of its attempts are allowed than are left of the ten,
  -- whatever other hosts try in between.
  pub allowed-le :
      (host : Text) (calls : List (Text × ℕ)) (t : Attempts) (w : LoginWindow)
      → find host t ≡ some w
      → w.count ≤ 10
      → All (λ call. call.1 ≤ w.until) calls
      → w.count + allowed host calls t ≤ 10
  unfolding allowed
  allowed-le host [] t w found room _ = omega (arith, room)
  allowed-le host ((remote, now) ∷ calls) t w found room (early, later) =
      let next = allow_login split_host remote now t in
      let step = allow_login-IsCounted host remote now t w found early room in
      let later' : All (λ call. call.1 ≤ step.window.until) calls = rw (step.same_end) later in
      let rest = allowed-le host calls next.0 step.window step.found step.room later' in
      ground (arith, step.counted, rest)
