-- ===== src/Auth/Webdav/Grants.antt =====
-- Every answer of the HTTP Basic check goes back to a recent grant.
use paperless_webdav.Base.{
  ℕ, ◌+◌, ◌<◌, ◌≡◌, refl, sym, ◌∙◌, inl, inr, true, Option, none, some, List, [], ◌∷◌, ◌==◌, nat_eq,
  list_eq, pair_eq, ltb, ltb→lt, In, arith, Dict, lookup, insert, erase, lookup-insert,
  lookup-erase, lookup-nil, if_cases, Text,
}
use paperless_webdav.Auth.Webdav.{
  auth_cache_ttl, CachedToken, AuthState, Environ, signed_in, Attempt, answer_of, cache_key,
  keep_answer, after_lookup, basic_auth_user, get_token,
}

module _ (sha256 : Text → Text) where
  -- An attempt that was granted with the token, for the user and the digest of the password.
  pub record Granted (attempts : List Attempt) (key : Text × Text) (token : Text) (expiry : ℕ)
      : Type 0 where
    pub grant : Attempt
    pub made : In grant attempts
    pub same_key : cache_key sha256 grant ≡ key
    pub token_given : answer_of grant ≡ some token
    pub lasts : expiry ≡ grant.now + auth_cache_ttl

  abbrev pub IsJustified : List Attempt → Dict (Text × Text) CachedToken → Type 0
  IsJustified attempts cache =
      (key : Text × Text) (entry : CachedToken)
      → lookup key cache ≡ some entry
      → Granted attempts key entry.token entry.expiry

  -- The attempts so far, the last one first, and the state that they leave.
  pub data Run : List Attempt → AuthState → Type 0 where
    start : Run [] (record { auth_cache = []; user_tokens = [] })
    attempt :
        {attempts : List Attempt} {s : AuthState} (a : Attempt) (environ : Environ)
        → Run attempts s
        → Run (a ∷ attempts) (basic_auth_user sha256 a s environ).1

  later :
      (attempts : List Attempt) (a : Attempt) (key : Text × Text) (token : Text) (expiry : ℕ)
      → Granted attempts key token expiry
      → Granted (a ∷ attempts) key token expiry
  later attempts a key token expiry g = record {
    grant = g.grant;
    made = inr g.made;
    same_key = g.same_key;
    token_given = g.token_given;
    lasts = g.lasts;
  }

  module _ (attempts : List Attempt) (a : Attempt) where
    keep_answer-IsJustified :
        (answer : Option Text) (s : AuthState) (environ : Environ)
        → answer_of a ≡ answer
        → IsJustified attempts s.auth_cache
        → IsJustified (a ∷ attempts) (keep_answer sha256 a answer s environ).1.auth_cache
    unfolding keep_answer
    keep_answer-IsJustified none s environ e j key entry h =
        later attempts a key _ _ (j key entry h)
    keep_answer-IsJustified (some token) s environ e j key entry h =
        if_cases (λ o. o ≡ some entry → Granted (a ∷ attempts) key entry.token entry.expiry)
          (key == cache_key sha256 a) (some new) (lookup key s.auth_cache) fresh
          (λ _ old. later attempts a key _ _ (j key entry old))
          (sym (lookup-insert key (cache_key sha256 a) new s.auth_cache) ∙ h)
      where
        new : CachedToken
        new = record { token = token; expiry = a.now + auth_cache_ttl }

        fresh :
            (key == cache_key sha256 a) ≡ true
            → some new ≡ some entry
            → Granted (a ∷ attempts) key entry.token entry.expiry
        fresh same k = record {
          grant = a;
          made = inl refl;
          same_key = ground (arith, same);
          token_given = e ∙ ground (arith, k);
          lasts = ground (arith, k);
        }

    erase-IsJustified :
        (s : AuthState)
        → IsJustified attempts s.auth_cache
        → IsJustified attempts (erase (cache_key sha256 a) s.auth_cache)
    erase-IsJustified s j key entry h =
        if_cases (λ o. o ≡ some entry → Granted attempts key entry.token entry.expiry)
          (key == cache_key sha256 a) none (lookup key s.auth_cache) (λ _ k. cc)
          (λ _ old. j key entry old) (sym (lookup-erase key (cache_key sha256 a) s.auth_cache) ∙ h)

    after_lookup-IsJustified :
        (found : Option CachedToken) (s : AuthState) (environ : Environ)
        → IsJustified attempts s.auth_cache
        → IsJustified (a ∷ attempts) (after_lookup sha256 a found s environ).1.auth_cache
    unfolding after_lookup
    after_lookup-IsJustified none s environ j =
        keep_answer-IsJustified (answer_of a) s environ refl j
    after_lookup-IsJustified (some cached) s environ j =
        if_cases
          (λ (r : Option Text × AuthState × Environ). IsJustified (a ∷ attempts) r.1.auth_cache)
          (ltb a.now cached.expiry)
          (
            some a.username,
            record s { user_tokens = insert a.username cached.token s.user_tokens },
            signed_in a.username cached.token,
          )
          (keep_answer sha256 a (answer_of a)
            (record s { auth_cache = erase (cache_key sha256 a) s.auth_cache }) environ)
          (λ _ key entry h. later attempts a key entry.token entry.expiry (j key entry h))
          (λ _. keep_answer-IsJustified (answer_of a) _ environ refl (erase-IsJustified s j))

    basic_auth_user-IsJustified :
        (s : AuthState) (environ : Environ)
        → IsJustified attempts s.auth_cache
        → IsJustified (a ∷ attempts) (basic_auth_user sha256 a s environ).1.auth_cache
    unfolding basic_auth_user
    basic_auth_user-IsJustified s environ j =
        after_lookup-IsJustified (lookup (cache_key sha256 a) s.auth_cache) s environ j

  none_kept : (key : Text × Text) (entry : CachedToken) → lookup key [] ≡ some entry → ⊥
  none_kept key entry h = let e = sym (lookup-nil key) ∙ h in cc

  Run-IsJustified :
      {attempts : List Attempt} {s : AuthState} → Run attempts s → IsJustified attempts s.auth_cache
  Run-IsJustified start = λ key entry h. absurd (none_kept key entry h)
  Run-IsJustified (attempt a environ run) =
      basic_auth_user-IsJustified _ a _ environ (Run-IsJustified run)

  -- What one call tells of the attempt, by whether it signs the user in.
  abbrev pub AuthTells :
      List Attempt → Attempt → AuthState → Environ → Option Text × AuthState × Environ → Type 0
  AuthTells attempts a s environ (none, s', environ') =
      (answer_of a ≡ none) × (environ' ≡ environ) × (s'.user_tokens ≡ s.user_tokens)
  AuthTells attempts a s environ (some username, s', environ') =
      (username ≡ a.username)
      × ((token : Text) × (expiry : ℕ) × (environ' ≡ signed_in a.username token)
          × (get_token a.username s' ≡ some token)
          × (a.now < expiry)
          × Granted (a ∷ attempts) (cache_key sha256 a) token expiry)

  module _ (attempts : List Attempt) (a : Attempt) where
    stored_last :
        (token : Text) (s : AuthState) (cache : Dict (Text × Text) CachedToken)
        → get_token a.username
            (record { auth_cache = cache; user_tokens = insert a.username token s.user_tokens })
          ≡ some token
    unfolding get_token
    stored_last token s cache =
        lookup-insert a.username a.username token s.user_tokens ∙ ground arith

    keep_answer-AuthTells :
        (answer : Option Text) (s : AuthState) (environ : Environ)
        → answer_of a ≡ answer
        → AuthTells attempts a s environ (keep_answer sha256 a answer s environ)
    unfolding keep_answer
    keep_answer-AuthTells none s environ e = (e, refl, refl)
    keep_answer-AuthTells (some token) s environ e = (
      refl,
      (
        token,
        a.now + auth_cache_ttl,
        refl,
        stored_last token s _,
        omega arith,
        record { grant = a; made = inl refl; same_key = refl; token_given = e; lasts = refl },
      ),
    )

    after_lookup-AuthTells :
        (found : Option CachedToken) (s : AuthState) (environ : Environ)
        → ((cached : CachedToken)
            → found ≡ some cached
            → Granted attempts (cache_key sha256 a) cached.token cached.expiry)
        → AuthTells attempts a s environ (after_lookup sha256 a found s environ)
    unfolding after_lookup
    after_lookup-AuthTells none s environ j = keep_answer-AuthTells (answer_of a) s environ refl
    after_lookup-AuthTells (some cached) s environ j =
        if_cases (AuthTells attempts a s environ) (ltb a.now cached.expiry) _ _
          (λ fresh. (
            refl,
            (
              cached.token,
              cached.expiry,
              refl,
              stored_last cached.token s _,
              ltb→lt a.now cached.expiry fresh,
              later attempts a _ _ _ (j cached refl),
            ),
          ))
          (λ _.
            keep_answer-AuthTells (answer_of a)
              (record s { auth_cache = erase (cache_key sha256 a) s.auth_cache }) environ refl)

    -- After any sequence of attempts, an attempt signs a user in only under the name that it gives, with
    -- a token, stored for the user and set in the environ, that the backends granted to this attempt or
    -- to one before it of the same name and the same digest of the password, less than 300 seconds ago.
    -- An attempt that is refused was refused by the backends, and leaves the environ and the stored
    -- tokens as they were.
    pub basic_auth_user-AuthTells :
        (s : AuthState) (environ : Environ)
        → Run attempts s
        → AuthTells attempts a s environ (basic_auth_user sha256 a s environ)
    unfolding basic_auth_user
    basic_auth_user-AuthTells s environ run =
        after_lookup-AuthTells (lookup (cache_key sha256 a) s.auth_cache) s environ
          (Run-IsJustified run (cache_key sha256 a))
