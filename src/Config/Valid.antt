-- ===== src/Config/Valid.antt =====
-- What a configuration without errors is.
use babilcors.Prelude.{
  ℕ, suc, ◌-◌, ◌≤◌, ◌<◌, ◌≡◌, refl, ap, ◌⊎◌, inl, inr, Bool, true, false, not, ◌&&◌, ◌||◌, List, [],
  ◌∷◌, ◌++◌, All, arith, Bool-cases,
}
use babilcors.Prelude.Int.{ℤ, pos, negsuc}
use babilcors.Tiers.{Tier}
use babilcors.Caster.ByteQueue.{new_queue}
use babilcors.Caster.Server.{new_session, queue_size}
use babilcors.Config.{
  Text, Listen, User, Config, Error, tier_negative, rate_limit_bps, max_epochs_per_minute,
  max_queue_bytes, limit_negative, port_range, host_empty, backlog_low, tls_halves,
  source_password_empty, mountpoint_repeated, ip_nets, tier_unknown, is_empty, error_if, has,
  repeats, has_space, is_blank, has_slash, is_negative, in_port_range, below_one, listen_errors,
  mountpoint_errors, tier_errors, user_errors, limit_errors, names, unknown_tiers,
  unknown_tier_errors, validate_config,
}

abbrev pub IsNatural : ℤ → Type 0
IsNatural z = (n : ℕ) × (z ≡ pos n)

pub record IsTier (t : Tier) : Type 0 where
  pub rate : IsNatural t.rate_limit_bps
  pub epochs : IsNatural t.max_epochs_per_minute
  pub bytes : IsNatural t.max_queue_bytes

abbrev pub IsName : Text → Type 0
IsName mp = (is_blank mp ≡ false) × (has_space mp ≡ false) × (has_slash mp ≡ false)

abbrev pub HasSecret : User → Type 0
HasSecret u =
    (is_empty u.password ≡ false)
    ⊎ ((is_empty u.password_sha256 ≡ false) ⊎ (is_empty u.password_hash ≡ false))

-- A user's tier is in the table, or left open.
abbrev pub IsKnown : List Text → User → Type 0
IsKnown known u = (is_empty u.tier ≡ true) ⊎ (has u.tier known ≡ true)

pub record IsValid (c : Config) : Type 0 where
  pub port : (n : ℕ) × (c.listen.port ≡ pos n) × (n ≤ 65535)
  pub host : is_blank c.listen.host ≡ false
  pub backlog : (n : ℕ) × (c.listen.backlog ≡ pos (suc n))
  pub tls : is_empty c.listen.tls_certfile ≡ is_empty c.listen.tls_keyfile
  pub password : is_empty c.source_password ≡ false
  pub distinct : repeats c.source_mountpoints ≡ false
  pub mountpoints : All IsName c.source_mountpoints
  pub tiers : All (λ (p : Text × Tier). IsTier p.1) c.tiers
  pub users : All HasSecret c.users
  pub limits : All (λ (p : Text × ℤ). IsNatural p.1) c.limits
  pub nets : c.ip_nets_ok ≡ true
  pub known : (is_empty c.tiers ≡ true) ⊎ All (IsKnown (names c.tiers)) c.users

no_errors-append : (xs ys : List Error) → xs ++ ys ≡ [] → (xs ≡ []) × (ys ≡ [])
no_errors-append [] ys e = (refl, e)
no_errors-append (x ∷ xs) ys e = absurd (ground (arith, e))

error_if-none : (b : Bool) (x : Error) → error_if b x ≡ [] → b ≡ false
unfolding error_if
error_if-none true x e = absurd (ground (arith, e))
error_if-none false x e = refl

error_if-append :
    (b : Bool) (x : Error) (ys : List Error) → error_if b x ++ ys ≡ [] → (b ≡ false) × (ys ≡ [])
error_if-append b x ys e =
    let (none_here, rest) = no_errors-append (error_if b x) ys e in
    (error_if-none b x none_here, rest)

not_negative : (z : ℤ) → is_negative z ≡ false → IsNatural z
unfolding is_negative
not_negative (pos n) e = (n, refl)
not_negative (negsuc n) e = absurd (ground (arith, e))

port_valid : (z : ℤ) → not (in_port_range z) ≡ false → (n : ℕ) × (z ≡ pos n) × (n ≤ 65535)
unfolding in_port_range
port_valid (pos n) e = (n, refl, ground (arith, e))
port_valid (negsuc n) e = absurd (ground (arith, e))

backlog_valid : (z : ℤ) → below_one z ≡ false → (n : ℕ) × (z ≡ pos (suc n))
unfolding below_one
backlog_valid (pos n) e = (n - 1, ap pos (ground (arith, e)))
backlog_valid (negsuc n) e = absurd (ground (arith, e))

mountpoint_errors-none : (mps : List Text) → mountpoint_errors mps ≡ [] → All IsName mps
unfolding mountpoint_errors
mountpoint_errors-none [] e = tt
mountpoint_errors-none (mp ∷ mps) e = ground (arith, e, mountpoint_errors-none mps)

tier_errors-none :
    (ts : List (Text × Tier)) → tier_errors ts ≡ [] → All (λ (p : Text × Tier). IsTier p.1) ts
unfolding tier_errors
tier_errors-none [] e = tt
tier_errors-none ((name, t) ∷ ts) e =
    let bytes_errors =
      error_if (is_negative t.max_queue_bytes) (tier_negative name max_queue_bytes)
      ++ tier_errors ts in
    let epochs_errors =
      error_if (is_negative t.max_epochs_per_minute) (tier_negative name max_epochs_per_minute)
      ++ bytes_errors in
    let (rate, e₁) =
      error_if-append (is_negative t.rate_limit_bps) (tier_negative name rate_limit_bps)
        epochs_errors e in
    let (epochs, e₂) =
      error_if-append (is_negative t.max_epochs_per_minute)
        (tier_negative name max_epochs_per_minute) bytes_errors e₁ in
    let (bytes, e₃) =
      error_if-append (is_negative t.max_queue_bytes) (tier_negative name max_queue_bytes)
        (tier_errors ts) e₂ in
    (
      record {
        rate = not_negative t.rate_limit_bps rate;
        epochs = not_negative t.max_epochs_per_minute epochs;
        bytes = not_negative t.max_queue_bytes bytes;
      },
      tier_errors-none ts e₃,
    )

user_errors-none : (us : List User) → user_errors us ≡ [] → All HasSecret us
unfolding user_errors
user_errors-none [] e = tt
user_errors-none (u ∷ us) e = ground (arith, e, user_errors-none us)

limit_errors-none :
    (ls : List (Text × ℤ)) → limit_errors ls ≡ [] → All (λ (p : Text × ℤ). IsNatural p.1) ls
unfolding limit_errors
limit_errors-none [] e = tt
limit_errors-none ((k, v) ∷ ls) e =
    let (natural, rest) = error_if-append (is_negative v) (limit_negative k) (limit_errors ls) e in
    (not_negative v natural, limit_errors-none ls rest)

unknown_tiers-none :
    (known : List Text) (us : List User) → unknown_tiers known us ≡ [] → All (IsKnown known) us
unfolding unknown_tiers
unknown_tiers-none known [] e = tt
unknown_tiers-none known (u ∷ us) e = ground (arith, e, unknown_tiers-none known us)

halves_valid : (c k : Bool) → (not c || not k) && not (not c && not k) ≡ false → c ≡ k
halves_valid true true e = refl
halves_valid true false e = absurd (ground (arith, e))
halves_valid false true e = absurd (ground (arith, e))
halves_valid false false e = refl

empty_list : (l : List Text) → is_empty l ≡ true → l ≡ []
unfolding is_empty
empty_list [] e = refl
empty_list (x ∷ xs) e = absurd (ground (arith, e))

tiers-IsKnown :
    (c : Config)
    → not (is_empty c.tiers) && not (is_empty (unknown_tiers (names c.tiers) c.users)) ≡ false
    → (is_empty c.tiers ≡ true) ⊎ All (IsKnown (names c.tiers)) c.users
tiers-IsKnown c e = elim (Bool-cases (is_empty c.tiers)) [
  | inl none_there ↦ inl none_there
  | inr some_there ↦ inr (
      unknown_tiers-none (names c.tiers) c.users
        (empty_list (unknown_tiers (names c.tiers) c.users) (ground (arith, e, some_there))))
]

listen_valid :
    (l : Listen)
    → listen_errors l ≡ []
    → ((n : ℕ) × (l.port ≡ pos n) × (n ≤ 65535))
      × (is_blank l.host ≡ false)
      × ((n : ℕ) × (l.backlog ≡ pos (suc n)))
      × (is_empty l.tls_certfile ≡ is_empty l.tls_keyfile)
unfolding listen_errors
listen_valid l e =
    let c = is_empty l.tls_certfile in
    let k = is_empty l.tls_keyfile in
    let tls_errors = error_if ((not c || not k) && not (not c && not k)) tls_halves in
    let backlog_errors = error_if (below_one l.backlog) backlog_low ++ tls_errors in
    let host_errors = error_if (is_blank l.host) host_empty ++ backlog_errors in
    let (port, e₁) = error_if-append (not (in_port_range l.port)) port_range host_errors e in
    let (host, e₂) = error_if-append (is_blank l.host) host_empty backlog_errors e₁ in
    let (backlog, e₃) = error_if-append (below_one l.backlog) backlog_low tls_errors e₂ in
    (
      port_valid l.port port,
      host,
      backlog_valid l.backlog backlog,
      halves_valid c k (error_if-none ((not c || not k) && not (not c && not k)) tls_halves e₃),
    )

-- A configuration without errors is valid: in range, with a host, a backlog, both halves of TLS
-- or none, distinct mountpoints that are names, tiers and limits that are not negative, a secret
-- for the source and for each user, and tiers that are known.
pub validate_config-IsValid : (c : Config) → validate_config c ≡ [] → IsValid c
unfolding validate_config unknown_tier_errors
validate_config-IsValid c e =
    let unknown = unknown_tiers (names c.tiers) c.users in
    let t₈ = unknown_tier_errors c in
    let t₇ = error_if (not c.ip_nets_ok) ip_nets ++ t₈ in
    let t₆ = limit_errors c.limits ++ t₇ in
    let t₅ = user_errors c.users ++ t₆ in
    let t₄ = tier_errors c.tiers ++ t₅ in
    let t₃ = mountpoint_errors c.source_mountpoints ++ t₄ in
    let t₂ = error_if (repeats c.source_mountpoints) mountpoint_repeated ++ t₃ in
    let t₁ = error_if (is_empty c.source_password) source_password_empty ++ t₂ in
    let (listen, e₁) = no_errors-append (listen_errors c.listen) t₁ e in
    let (port, host, backlog, tls) = listen_valid c.listen listen in
    let (password, e₂) = error_if-append (is_empty c.source_password) source_password_empty t₂ e₁ in
    let (distinct, e₃) = error_if-append (repeats c.source_mountpoints) mountpoint_repeated t₃ e₂ in
    let (mountpoints, e₄) = no_errors-append (mountpoint_errors c.source_mountpoints) t₄ e₃ in
    let (tiers, e₅) = no_errors-append (tier_errors c.tiers) t₅ e₄ in
    let (users, e₆) = no_errors-append (user_errors c.users) t₆ e₅ in
    let (limits, e₇) = no_errors-append (limit_errors c.limits) t₇ e₆ in
    let (nets, e₈) = error_if-append (not c.ip_nets_ok) ip_nets t₈ e₇ in
    record {
      port = port;
      host = host;
      backlog = backlog;
      tls = tls;
      password = password;
      distinct = distinct;
      mountpoints = mountpoint_errors-none c.source_mountpoints mountpoints;
      tiers = tier_errors-none c.tiers tiers;
      users = user_errors-none c.users users;
      limits = limit_errors-none c.limits limits;
      nets = ground (arith, nets);
      known = tiers-IsKnown c (
          error_if-none (not (is_empty c.tiers) && not (is_empty unknown)) (tier_unknown unknown)
            e₈);
    }

-- A rover of a tier of a valid configuration has a queue with a bound that is not 0.
pub tier-bounded : (t : Tier) (id now : ℕ) → IsTier t → 0 < (new_session id t now).queue.max
unfolding new_session new_queue queue_size
tier-bounded t id now h = ground (arith, h.bytes)
