-- ===== src/Admin/Answers.antt =====
-- What the routes that make an account answer: POST /v1/setup and /v1/register of internal/server/admin.go.
use quire_server.Base.{
  ℕ, ◌≡◌, ◌≢◌, ◌⊎◌, refl, eq_iff, nat_eq, arith, any, length, ltb, len, split, Error, invalid,
  unauthorized, conflict, no_rows, too_large, watched, decoding, constraint, panics, Bool, true,
  false, not, ◌&&◌, Option, some, Text, codes, leb, keep, ◌==◌, text_eq, Result, ok, err,
  Bool-cases, inl, inr, Result-cases,
}
use quire_server.Auth.{Crypto}
use quire_server.Http.{
  Request, Reply, denied, granted, failure_status, decode, reply_of, allow_login,
}
use quire_server.Http.Browser.{seconds}
use quire_server.Admin.{Directory, user_info, needs_setup, register, is_open}
use quire_server.Admin.Registration.{register-user_info}
use quire_server.Folders.{first}
use quire_server.Sync.Validate.{strict_json}
use quire_server.Admin.Routes.{Registration, Desk, wrong_code, register_answer, post_register}

failure_status-refuses : (e : Error) → failure_status e ≢ 201
unfolding failure_status
failure_status-refuses invalid = omega arith
failure_status-refuses unauthorized = omega arith
failure_status-refuses conflict = omega arith
failure_status-refuses no_rows = omega arith
failure_status-refuses too_large = omega arith
failure_status-refuses watched = omega arith
failure_status-refuses decoding = omega arith
failure_status-refuses constraint = omega arith
failure_status-refuses panics = omega arith

-- A refusal does not say that something was created.
abbrev Refuses : {A : Type 0} → Reply A → Type 0
Refuses (denied status) = status ≢ 201
Refuses (granted a) = Unit

reply_of-Refuses : {A : Type 0} (out : Result A) → Refuses (reply_of out)
reply_of-Refuses (ok a) = tt
reply_of-Refuses (err e) = failure_status-refuses e

decode-Refuses :
    {A : Type 0} (read : Text → Option (A × Bool)) (r : Request) (limit : ℕ)
    → Refuses (decode read r limit)
unfolding decode
decode-Refuses read r limit =
    elim (Bool-cases (not (first (split r.content_type b';') == codes "application/json"))) [
      | inl other ↦ simp other (omega arith)
      | inr json ↦ elim (Bool-cases (ltb limit (len r.body))) [
        | inl long ↦ simp (json, long) (omega arith)
        | inr fits ↦ simp (json, fits) (reply_of-Refuses (strict_json read r.body))
      ]
    ]

module _ (c : Crypto) (split_host : Text → Option Text) where
  -- Who may register: the first administrator, by the code of the server; anybody else by an invite that
  -- is open.
  abbrev pub IsEntitled :
      (setup_code : Text) (setup : Bool) (now : ℕ) (code : Text) (db : Directory) → Type 0
  IsEntitled setup_code setup now code db =
      ((setup ≡ true)
        × (setup_code ≢ codes "")
        × (code ≡ setup_code)
        × (any (λ u. u.admin) db.accounts.users ≡ false))
      ⊎ ((setup ≡ false) × (length (keep (is_open (c.sha256 code) now) db.invites) ≡ 1))

  -- A registration over HTTP: the input that the body holds, and the account that it makes.
  pub record IsRegisteredBy (setup_code : Text) (setup : Bool) (id : Text) (now : ℕ)
      (input : Reply Registration) (db db' : Directory) : Type 0 where
    pub entry : Registration
    pub given : input ≡ granted entry
    pub entitled : IsEntitled setup_code setup (seconds now) entry.code db
    pub made :
        user_info id db'.accounts.users
        ≡ some (record { id = id; username = entry.username; admin = setup; disabled = false })

  -- The outcome of the route: the account is made, or nothing changes and the status is another.
  abbrev pub IsAnswered :
      (setup_code : Text) (setup : Bool) (id : Text) (now : ℕ) (input : Reply Registration)
      (db : Directory) (out : Desk × ℕ)
      → Type 0
  IsAnswered setup_code setup id now input db out =
      ((out.0.directory ≡ db) × (out.1 ≢ 201))
      ⊎ (IsRegisteredBy setup_code setup id now input db out.0.directory × (out.1 ≡ 201))

  IsEntitled-register :
      (setup_code : Text) (setup : Bool) (salt id : Text) (now : ℕ) (v : Registration)
      (db db' : Directory)
      → (setup && wrong_code c split_host setup_code v.code) ≡ false
      → register c v.username v.password v.code setup salt id now db ≡ ok db'
      → IsEntitled setup_code setup now v.code db
  unfolding needs_setup
  IsEntitled-register setup_code true salt id now v db db' fine done =
      let (_, first, _) =
        register-user_info c v.username v.password v.code true salt id now db db' done in
      inl (
        refl,
        ground (arith, fine, eq_iff setup_code (codes "")),
        (eq_iff v.code setup_code).0 (ground (arith, fine)),
        ground (arith, first refl),
      )
  IsEntitled-register setup_code false salt id now v db db' fine done =
      let (_, _, one) =
        register-user_info c v.username v.password v.code false salt id now db db' done in
      inr (refl, one refl)

  register_answer-IsAnswered :
      (setup_code : Text) (setup : Bool) (salt id : Text) (now : ℕ) (input : Reply Registration)
      (s : Desk)
      → Refuses input
      → IsAnswered setup_code setup id now input s.directory
          (register_answer c split_host setup_code setup salt id now input s)
  unfolding register_answer
  register_answer-IsAnswered setup_code setup salt id now (denied status) s other =
      inl (refl, other)
  register_answer-IsAnswered setup_code setup salt id now (granted v) s _ =
      elim (Bool-cases (setup && wrong_code c split_host setup_code v.code)) [
        | inl wrong ↦ inl (simp wrong (refl, omega arith))
        | inr fine ↦
            let run =
              register c v.username v.password v.code setup salt id (seconds now) s.directory in
            elim (Result-cases run) [
              | inl (db, done) ↦ inr (
                  simp (fine, done)
                    (
                      record {
                        entry = v;
                        given = refl;
                        entitled =
                            IsEntitled-register setup_code setup salt id (seconds now) v s.directory
                              db fine done;
                        made =
                            (register-user_info c v.username v.password v.code setup salt id
                              (seconds now) s.directory db done).0;
                      },
                      refl,
                    ))
              | inr (e, failed) ↦ inl (simp (fine, failed) (refl, failure_status-refuses e))
            ]
      ]

  -- POST /v1/setup and POST /v1/register answer 201 only where they make the account of the name that the
  -- request's body holds, with the caller's new id: by the setup an administrator, where there is none
  -- and the body names the code of the server, which is not empty; by a registration none, where one
  -- invite is open for the code. Otherwise the directory stays as it is.
  pub post_register-IsAnswered :
      (read : Text → Option (Registration × Bool)) (setup_code : Text) (setup : Bool) (busy : ℕ)
      (salt id : Text) (r : Request) (now : ℕ) (s : Desk)
      → IsAnswered setup_code setup id now
          (decode read r 4096)
          s.directory
          (post_register c split_host read setup_code setup busy salt id r now s)
  unfolding post_register
  post_register-IsAnswered read setup_code setup busy salt id r now s =
      let tried = allow_login split_host r.remote now s.attempts in
      elim (Bool-cases (not tried.1)) [
        | inl spent ↦ inl (simp spent (refl, omega arith))
        | inr allowed ↦ elim (Bool-cases (leb 2 busy)) [
          | inl full ↦ inl (simp (allowed, full) (refl, omega arith))
          | inr room ↦
              simp (allowed, room)
                (register_answer-IsAnswered setup_code setup salt id now (decode read r 4096)
                  (record s { attempts = tried.0 }) (decode-Refuses read r 4096))
        ]
      ]
