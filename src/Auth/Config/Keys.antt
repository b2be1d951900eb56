-- ===== src/Auth/Config/Keys.antt =====
-- What an accepted environment gives.
use marketplace_api.Prelude.{
  Option, Option-cases, Text, [], arith, false, inl, inr, none, refl, some, text_eq, text_eq_refl,
  ◌∷◌, ◌≡◌, ◌≢◌, Bool-cases, ap, if◌then◌else◌, sym, text_eq-ne, text_eq→eq, ◌∙◌,
}
use marketplace_api.Auth.Config.{
  with_previous, store_of, check_pair, KeyLoader, AuthEnv, check_previous, open_key_store,
  previous_store, given, validate_auth_env,
}
use marketplace_api.Auth.Tokens.{verification_key, KeyStore, key_of}
use mathlib.Core.Option.{some-injective}
use mathlib.Core.Path.{subst}

module _ {Private Public : Type 0} (keys : KeyLoader Private Public) where
  -- A store in which both key ids name their keys.
  pub record Opened (env : AuthEnv) : Type 0 where
    pub signing : Private
    pub store : KeyStore Public
    pub loaded : keys.load_private env.jwt_private_key ≡ some signing
    pub opened : open_key_store keys env ≡ some store
    pub paired : keys.private_fingerprint signing ≡ keys.public_fingerprint store.public_key
    pub current : verification_key store (some env.jwt_kid) ≡ keys.load_public env.jwt_public_key
    pub previous :
        (k p : Text)
        → given env.jwt_previous_kid ≡ some k
        → given env.jwt_previous_public_key ≡ some p
        → key_of store k ≡ keys.load_public p

  named : (ks : KeyStore Public) (k : Text) → k ≢ [] → verification_key ks (some k) ≡ key_of ks k
  unfolding verification_key
  named ks [] n = absurd (n refl)
  named ks (c ∷ cs) n = refl

  -- The store that the two variables of the previous key lead to.
  record PreviousStore (kid : Text) (public : Public) (k p : Option Text) : Type 0 where
    store : KeyStore Public
    opened : previous_store keys kid public k p ≡ some store
    same : store.public_key ≡ public
    current : key_of store kid ≡ some public
    previous : (k' p' : Text) → k ≡ some k' → p ≡ some p' → key_of store k' ≡ keys.load_public p'

  previous-Store :
      (kid : Text) (public : Public) (k p : Option Text)
      → check_previous keys kid k p ≡ none
      → PreviousStore kid public k p
  previous-Store kid public none none h = record {
    store = record { kid = kid; public_key = public; previous = none };
    opened = refl;
    same = refl;
    current = rw (text_eq_refl kid) refl;
    previous = λ k' p' e f. absurd (cc);
  }
  previous-Store kid public (some k) none h = absurd (cc)
  previous-Store kid public none (some p) h = absurd (cc)
  previous-Store kid public (some k) (some p) h = elim (Option-cases (keys.load_public p)) [
    | inl e ↦ absurd (ground (arith, e, h))
    | inr (key, e) ↦
        let apart : text_eq k kid ≡ false = ground (arith, e, h) in
        let other : text_eq kid k ≡ false = text_eq-ne kid k (λ q.
          absurd (ground (arith, apart, ap (λ t. text_eq t kid) (sym q), text_eq_refl kid))) in
        let store : KeyStore Public = record {
          kid = kid;
          public_key = public;
          previous = some (k, key);
        } in
        record {
          store = store;
          opened = ap (with_previous keys kid public k) e;
          same = refl;
          current =
              ap (λ b. if b then some key else if text_eq kid kid then some public else none) other
              ∙ ap (λ b. if b then some public else none) (text_eq_refl kid);
          previous = λ k' p' q r.
              let first = some-injective k k' q in
              let second = some-injective p p' r in
              subst (λ x. key_of store x ≡ keys.load_public p') first
                (ap (λ b. if b then some key else if text_eq k kid then some public else none)
                    (text_eq_refl k)
                  ∙ sym e
                  ∙ ap keys.load_public second);
        }
  ]

  store_of-Opened :
      (env : AuthEnv) (private : Option Private) (public : Option Public)
      → env.jwt_kid ≢ []
      → keys.load_private env.jwt_private_key ≡ private
      → keys.load_public env.jwt_public_key ≡ public
      → check_pair keys env private public ≡ none
      → Opened env
  unfolding open_key_store
  store_of-Opened env none public n e f h = absurd (cc)
  store_of-Opened env (some private) none n e f h = absurd (cc)
  store_of-Opened env (some private) (some public) n e f h =
      elim (Bool-cases
        (text_eq (keys.private_fingerprint private) (keys.public_fingerprint public))) [
          | inr q ↦ absurd (ground (arith, q, h))
          | inl q ↦
              let k = given env.jwt_previous_kid in
              let p = given env.jwt_previous_public_key in
              let accepted : check_previous keys env.jwt_kid k p ≡ none = ground (arith, q, h) in
              let o = previous-Store env.jwt_kid public k p accepted in
              record {
                signing = private;
                store = o.store;
                loaded = e;
                opened =
                    ap (λ x. store_of keys env x (keys.load_public env.jwt_public_key)) e
                    ∙ ap (store_of keys env (some private)) f
                    ∙ o.opened;
                paired = text_eq→eq _ _ q ∙ ap keys.public_fingerprint (sym o.same);
                current = named o.store env.jwt_kid n ∙ o.current ∙ sym f;
                previous = o.previous;
              }
        ]

  -- With a key id that is not empty: an environment that is accepted opens a key store, whose current
  -- key id names the public key of the environment, which has the fingerprint of the signing key;
  -- and if a previous key is given, its id names it.
  pub validate_auth_env-Opened :
      (env : AuthEnv) → env.jwt_kid ≢ [] → validate_auth_env keys env ≡ none → Opened env
  unfolding validate_auth_env
  validate_auth_env-Opened env n h =
      store_of-Opened env (keys.load_private env.jwt_private_key)
        (keys.load_public env.jwt_public_key) n refl refl h
