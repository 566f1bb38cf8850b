-- ===== src/Backend/WorkerToken/Issue.antt =====
-- Who gets a token: the item of the settings that counts, and what the token says.
use manifeed.Common.{
  end_of_time, ℕ, ◌+◌, ◌≤◌, ◌≡◌, refl, sym, ap, ◌∙◌, Bool, true, false, Option, none, some, List,
  [], ◌∷◌, String, Instant, seconds, epoch, ltb, ℤ, pos, negsuc, parse_int, ◌⊎◌, inl, inr, arith,
  str_eq, eq_iff, eq_refl, coalesce, if◌then◌else◌, if-cases, Outcome, ok, err, Error,
}
use manifeed.Backend.WorkerToken.{
  Settings, WorkerTokenRequest, Claims, WorkerTokenRead, Credentials, get, set, read_credential,
  keep_credential, collect_credentials, resolve_worker_credentials, resolve_token_ttl_seconds,
  timestamp, has_secret, getenv, ttl_of, issue_worker_access_token,
}

-- The secret that an item gives a worker.
abbrev pub secret_in : String → Option (String × String) → Option String
secret_in k none = none
secret_in k (some (a, v)) = if str_eq a k then some v else none

-- The secret of the last item that names the worker.
abbrev pub last_secret : String → List String → Option String
last_secret k [] = none
last_secret k (c ∷ cs) = coalesce (last_secret k cs) (secret_in k (read_credential c))

coalesce_assoc : (a b c : Option String) → coalesce a (coalesce b c) ≡ coalesce (coalesce a b) c
coalesce_assoc none b c = refl
coalesce_assoc (some a) b c = refl

coalesce-none : (a : Option String) → coalesce a none ≡ a
coalesce-none none = refl
coalesce-none (some a) = refl

same_name : (a k n : String) → str_eq a k ≡ true → str_eq a n ≡ str_eq k n
same_name a k n h = ap (λ x. str_eq x n) ((eq_iff a k).0 h)

both_names : (a k n : String) → str_eq a n ≡ true → str_eq k n ≡ true → str_eq a k ≡ true
both_names a k n h l = (eq_iff a k).1 ((eq_iff a n).0 h ∙ sym ((eq_iff k n).0 l))

get-set :
    (n k v : String) (d : Credentials)
    → get n (set k v d) ≡ (if str_eq k n then some v else get n d)
unfolding get set
get-set n k v [] = refl
get-set n k v ((a, w) ∷ d) = ground (arith, same_name a k n, both_names a k n, get-set n k v d)

kept :
    (b : Bool) (v : String) (o : Option String)
    → (if b then some v else o) ≡ coalesce (if b then some v else none) o
kept true v o = refl
kept false v o = refl

get-keep :
    (n : String) (o : Option (String × String)) (d : Credentials)
    → get n (keep_credential o d) ≡ coalesce (secret_in n o) (get n d)
get-keep n none d = refl
get-keep n (some (k, v)) d = get-set n k v d ∙ kept (str_eq k n) v (get n d)

get-collect :
    (n : String) (cs : List String) (d : Credentials)
    → get n (collect_credentials cs d) ≡ coalesce (last_secret n cs) (get n d)
unfolding collect_credentials
get-collect n [] d = refl
get-collect n (c ∷ cs) d =
    get-collect n cs (keep_credential (read_credential c) d)
    ∙ ap (coalesce (last_secret n cs)) (get-keep n (read_credential c) d)
    ∙ coalesce_assoc (last_secret n cs) (secret_in n (read_credential c)) (get n d)

get-nil : (n : String) → get n [] ≡ none
unfolding get
get-nil n = refl

-- Of the items of the setting the last one that names a worker gives its secret.
pub collect_credentials-last :
    (worker_id : String) (chunks : List String)
    → get worker_id (collect_credentials chunks []) ≡ last_secret worker_id chunks
collect_credentials-last worker_id chunks =
    get-collect worker_id chunks []
    ∙ ap (coalesce (last_secret worker_id chunks)) (get-nil worker_id)
    ∙ coalesce-none (last_secret worker_id chunks)

ttl_of-min : (o : Option ℤ) → 60 ≤ ttl_of o
ttl_of-min none = omega arith
ttl_of-min (some (pos n)) = omega arith
ttl_of-min (some (negsuc n)) = omega arith

ttl-min : (env : Settings) → 60 ≤ resolve_token_ttl_seconds env
unfolding resolve_token_ttl_seconds
ttl-min env = ttl_of-min (parse_int (getenv env.worker_token_ttl_seconds "3600"))

-- What a token that was issued says.
pub record Issued (env : Settings) (now : Instant) (p : WorkerTokenRequest) (claims : Claims)
    (read : WorkerTokenRead) : Type 0 where
  pub known : get p.worker_id (resolve_worker_credentials env) ≡ some p.worker_secret
  pub sub : claims.sub ≡ p.worker_id
  pub lasts : claims.iat + 60 ≤ claims.exp
  pub same_end : claims.exp ≡ timestamp read.expires_at

has_secret-some : (o : Option String) (s : String) → has_secret o s ≡ true → o ≡ some s
has_secret-some none s h = cc
has_secret-some (some e) s h = ap some ((eq_iff e s).0 h)

later : (now ttl : ℕ) → epoch ≤ now → 60 ≤ ttl → timestamp now + 60 ≤ timestamp (now + seconds ttl)
later now ttl h k = omega arith

not_has_secret : (o : Option String) (s : String) → has_secret o s ≡ false → ¬ (o ≡ some s)
not_has_secret none s h e = cc
not_has_secret (some x) s h e = cc (h, e, eq_refl s)

-- What a request for a token comes to.
abbrev pub Answers :
    Settings → Instant → WorkerTokenRequest → Outcome (Claims × WorkerTokenRead) → Type 0
Answers env now p (ok (claims, read)) = Issued env now p claims read
Answers env now p (err e) =
    ((e ≡ Error.http_exception 401)
      × (¬ (get p.worker_id (resolve_worker_credentials env) ≡ some p.worker_secret)))
    ⊎ ((e ≡ Error.overflow_error) × (end_of_time ≤ now + seconds (resolve_token_ttl_seconds env)))

-- At a time behind 1970 a token is issued only to a worker that shows the secret which the settings
-- have for it; the claims name that worker and last for at least a minute, and the answer says when
-- they end. A request is refused only where the secret is another one, and fails otherwise only
-- where the token would end behind the year 9999.
pub issue_worker_access_token-Answers :
    (encode : Claims → String → String) (env : Settings) (now : Instant) (p : WorkerTokenRequest)
    → epoch ≤ now
    → Answers env now p (issue_worker_access_token encode env now p)
unfolding issue_worker_access_token
issue_worker_access_token-Answers encode env now p h =
    let found = get p.worker_id (resolve_worker_credentials env) in
    let ends = now + seconds (resolve_token_ttl_seconds env) in
    if-cases (Answers env now p) (has_secret found p.worker_secret) _ _
      (λ known.
        if-cases (Answers env now p) (ltb ends end_of_time) _ _
          (λ _. record {
            known = has_secret-some found p.worker_secret known;
            sub = refl;
            lasts = later now (resolve_token_ttl_seconds env) h (ttl-min env);
            same_end = refl;
          })
          (λ long. inr (refl, ground (arith, long))))
      (λ unknown. inl (refl, not_has_secret found p.worker_secret unknown))
