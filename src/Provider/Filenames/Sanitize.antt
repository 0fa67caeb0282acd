-- ===== src/Provider/Filenames/Sanitize.antt =====
-- What `sanitize_filename` guarantees of every name.
use paperless_webdav.Base.{
  ℕ, ◌≡◌, ◌≢◌, refl, false, [], ◌∷◌, select, any, any_of_In, contains, contains_iff, ℕ_discrete, In,
  In-of_select, arith, nat_eq, Text, codes, strip, In-strip, strip-ends, StartsClean,
}
use mathlib.Core.List.{reverse}
use paperless_webdav.Provider.Filenames.{
  unsafe_filename_chars, is_safe, or_untitled, sanitize_filename,
}

-- A name that a file system takes.
pub record IsSafeName (name : Text) : Type 0 where
  pub not_empty : name ≢ []
  pub no_unsafe : (c : ℕ) → In c name → ¬ In c unsafe_filename_chars
  pub clean_end : StartsClean (reverse name)

untitled_safe : any (λ c. contains c unsafe_filename_chars) (codes "untitled") ≡ false
unfolding any contains nat_eq ℕ_discrete
untitled_safe = refl

untitled_end : StartsClean (reverse (codes "untitled"))
unfolding contains nat_eq ℕ_discrete
untitled_end = refl

or_untitled-IsSafeName :
    (name : Text)
    → ((c : ℕ) → In c name → ¬ In c unsafe_filename_chars)
    → StartsClean (reverse name)
    → IsSafeName (or_untitled name)
or_untitled-IsSafeName [] safe clean = record {
  not_empty = λ e. cc;
  no_unsafe = λ c m n. ground (
    arith,
    untitled_safe,
    contains_iff c unsafe_filename_chars,
    any_of_In (λ d. contains d unsafe_filename_chars) c (codes "untitled") m,
  );
  clean_end = untitled_end;
}
or_untitled-IsSafeName (c ∷ s) safe clean = record {
  not_empty = λ e. cc;
  no_unsafe = safe;
  clean_end = clean;
}

-- Every title gives a name that is not empty, has none of the unsafe characters and does not end
-- in a space.
pub sanitize_filename-IsSafeName : (title : Text) → IsSafeName (sanitize_filename title)
unfolding sanitize_filename
sanitize_filename-IsSafeName title =
    or_untitled-IsSafeName (strip (select is_safe title))
      (λ c m n.
        let kept = In-of_select is_safe c title (In-strip c _ m) in
        ground (arith, kept.1, contains_iff c unsafe_filename_chars))
      (strip-ends _)
