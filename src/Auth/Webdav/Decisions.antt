-- ===== src/Auth/Webdav/Decisions.antt =====
-- Which credentials the HTTP Basic check accepts when its cache does not answer.
use paperless_webdav.Base.{
  ◌≡◌, ◌↔◌, refl, ◌⊎◌, inl, inr, Bool, true, false, ◌&&◌, Option, none, some, List, [], ◌∷◌,
  if◌then◌else◌, nat_eq, list_eq, arith, Bool-cases, Option-cases, Text,
}
use paperless_webdav.Provider.Moves.{filled}
use paperless_webdav.Auth.Paperless.{Reply, unreachable, reply, authenticate_with_paperless}
use paperless_webdav.Auth.Webdav.{
  Authenticator, Directory, Backends, search_filter, direct_dn, bind_user, bind_found,
  bind_by_search, bind_in, authenticate_ldap, load_token_from_db, token_login, is_set,
  authenticate_oidc, granted_token, authenticate,
}

module _ (self : Authenticator) (dir : Directory) (username password : Text) where
  -- The service account is bound, it finds an entry for the name, and the password binds that entry.
  abbrev pub SearchBinds : Type 0
  SearchBinds =
      (dn secret user_dn : Text) × (others : List Text) × (filled self.ldap_bind_dn ≡ some dn)
      × (filled self.ldap_bind_password ≡ some secret)
      × (dir.binds dn secret ≡ true)
      × (dir.searches (search_filter username) ≡ some (user_dn ∷ others))
      × (bind_user dir user_dn password ≡ true)

  -- There is no service account, and the password binds the entry named after the user.
  abbrev pub DirectBinds : Text → Type 0
  DirectBinds base =
      ((filled self.ldap_bind_dn ≡ none) ⊎ (filled self.ldap_bind_password ≡ none))
      × (bind_user dir (direct_dn username base) password ≡ true)

  abbrev pub LdapAccepts : Type 0
  LdapAccepts =
      (url base : Text) × (filled self.ldap_url ≡ some url)
      × (filled self.ldap_base_dn ≡ some base)
      × (SearchBinds ⊎ DirectBinds base)

  bind_found_iff :
      (found : Option (List Text))
      → bind_found dir password found ≡ true
      → (user_dn : Text) × (others : List Text) × (found ≡ some (user_dn ∷ others))
        × (bind_user dir user_dn password ≡ true)
  bind_found_iff none h = absurd (ground (arith, h))
  bind_found_iff (some []) h = absurd (ground (arith, h))
  bind_found_iff (some (user_dn ∷ others)) h = (user_dn, others, refl, h)

  bind_by_search-binds :
      (dn secret : Option Text) (base : Text)
      → filled self.ldap_bind_dn ≡ dn
      → filled self.ldap_bind_password ≡ secret
      → bind_by_search dir username password dn secret base ≡ true
      → SearchBinds ⊎ DirectBinds base
  unfolding bind_by_search
  bind_by_search-binds none secret base d e h = inr (inl d, h)
  bind_by_search-binds (some dn) none base d e h = inr (inr e, h)
  bind_by_search-binds (some dn) (some secret) base d e h =
      elim (Bool-cases (dir.binds dn secret)) [
        | inr refused ↦ absurd (ground (arith, h, refused))
        | inl bound ↦
            let (user_dn, others, found, accepted) =
              bind_found_iff (dir.searches (search_filter username)) (ground (arith, h, bound)) in
            inl (dn, secret, user_dn, others, d, e, bound, found, accepted)
      ]

  bind_in-LdapAccepts :
      (url base : Option Text)
      → filled self.ldap_url ≡ url
      → filled self.ldap_base_dn ≡ base
      → bind_in self dir username password url base ≡ true
      → LdapAccepts
  unfolding bind_in
  bind_in-LdapAccepts none base u b h = absurd (ground (arith, h))
  bind_in-LdapAccepts (some url) none u b h = absurd (ground (arith, h))
  bind_in-LdapAccepts (some url) (some base) u b h =
      (url, base, u, b, bind_by_search-binds _ _ base refl refl h)

  LdapAccepts-bind_in :
      LdapAccepts
      → bind_in self dir username password (filled self.ldap_url) (filled self.ldap_base_dn) ≡ true
  unfolding bind_in bind_by_search
  LdapAccepts-bind_in
        (url, base, u, b, inl (dn, secret, user_dn, others, d, e, bound, found, accepted)) =
      rw (u, b, d, e, bound, found) accepted
  LdapAccepts-bind_in (url, base, u, b, inr (inl d, accepted)) = rw (u, b, d) accepted
  LdapAccepts-bind_in (url, base, u, b, inr (inr e, accepted)) =
      elim (Option-cases (filled self.ldap_bind_dn)) [
        | inl d ↦ rw (u, b, d) accepted
        | inr (dn, d) ↦ rw (u, b, d, e) accepted
      ]

  -- LDAP accepts a password exactly when it is configured and the password binds the entry that the
  -- service account finds, or, without a service account, the entry named after the user. The empty
  -- password is put to the directory like any other.
  pub authenticate_ldap_iff : (authenticate_ldap self dir username password ≡ true) ↔ LdapAccepts
  unfolding authenticate_ldap
  authenticate_ldap_iff = (bind_in-LdapAccepts _ _ refl refl, LdapAccepts-bind_in)

-- When the backends grant a token: in OIDC mode it is the stored one, for who passes LDAP or gives the
-- token itself as the password; otherwise it is the one that Paperless answers with.
abbrev pub Grants : Authenticator → Backends → Text → Text → Text → Bool → Type 0
Grants self b username password token true =
    (filled (load_token_from_db self b username) ≡ some token)
    × (LdapAccepts self b.directory username password ⊎ (password ≡ token))
Grants self b username password token false = b.paperless username password ≡ reply 200 (some token)

module _ (self : Authenticator) (b : Backends) (username password token : Text) where
  granted_iff :
      (answer : Reply)
      → (granted_token (authenticate_with_paperless answer) ≡ some token)
        ↔ (answer ≡ reply 200 (some token))
  unfolding authenticate_with_paperless
  granted_iff unreachable = ground arith
  granted_iff (reply status none) = ground arith
  granted_iff (reply status (some t)) = (λ h. ground (arith, h), λ h. ground (arith, h))

  token_login_iff :
      (db_token : Option Text)
      → (token_login db_token password ≡ some token)
        ↔ ((db_token ≡ some token) × (password ≡ token))
  token_login_iff none = ground arith
  token_login_iff (some t) = (λ h. ground (arith, h), λ h. ground (arith, h))

  -- LDAP that accepts is configured.
  configured :
      authenticate_ldap self b.directory username password ≡ true
      → is_set (filled self.ldap_url) && is_set (filled self.ldap_base_dn) ≡ true
  configured h =
      let accepts = (authenticate_ldap_iff self b.directory username password).0 h in
      ground (arith, accepts.2, accepts.3)

  oidc_iff :
      (db_token : Option Text)
      → (authenticate_oidc self b.directory username password db_token ≡ some token) ↔ (
          (db_token ≡ some token)
          × ((authenticate_ldap self b.directory username password ≡ true) ⊎ (password ≡ token)))
  unfolding authenticate_oidc
  oidc_iff none = ground arith
  oidc_iff (some t) = (λ h. ground (arith, h, configured), λ h. ground (arith, h, configured))

  by_oidc :
      (authenticate_oidc self b.directory username password
          (filled (load_token_from_db self b username))
        ≡ some token)
      ↔ Grants self b username password token true
  by_oidc =
      let stored = oidc_iff (filled (load_token_from_db self b username)) in
      let ldap = authenticate_ldap_iff self b.directory username password in
      (
        λ h.
            let (found, way) = stored.0 h in
            (found, elim way [ inl accepted ↦ inl (ldap.0 accepted) | inr e ↦ inr e ]),
        λ (found, way).
            stored.1 (found, elim way [ inl accepts ↦ inl (ldap.1 accepts) | inr e ↦ inr e ]),
      )

  -- `basic_auth_user`, past its cache, grants a token exactly as described: in OIDC mode Paperless is
  -- not asked, and a stored token is needed whatever LDAP answers.
  pub authenticate_iff :
      (authenticate self b username password ≡ some token)
      ↔ Grants self b username password token self.oidc
  unfolding authenticate
  authenticate_iff =
      (elim self.oidc
        as (λ m.
          ((if m
              then authenticate_oidc self b.directory username password
                  (filled (load_token_from_db self b username))
              else granted_token (authenticate_with_paperless (b.paperless username password)))
            ≡ some token)
          ↔ Grants self b username password token m) [
            | true ↦ by_oidc
            | false ↦ granted_iff (b.paperless username password)
          ])
