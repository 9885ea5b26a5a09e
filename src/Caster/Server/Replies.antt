-- ===== src/Caster/Server/Replies.antt =====
-- Which rovers are admitted.
use babilcors.Prelude.{
  ℕ, ◌+◌, ◌≡◌, ◌≢◌, refl, ap, ◌∙◌, inl, inr, true, false, Option, none, some, or_else, Bool-cases,
  subst,
}
use babilcors.Prelude.Dict.{string_eq, lookup}
use babilcors.Tiers.{Tier}
use babilcors.Caster.Server.{
  Config, Server, Request, Reply, User, forbidden, unauthorized, fails, accepted, has, authenticate,
  user_can_access, at_limit, admit, admit_found, admit_user, open_session, default_tier,
  read_gga_header,
}
use babilcors.Caster.Server.Changes.{count_of, open_session-opens, open_session-fails}

-- What an admission asks for.
pub record IsEntitled (c : Config) (r : Request) (s : Server) : Type 0 where
  pub enabled : has r.mountpoint s.disabled_mountpoints ≡ false
  pub user : User
  pub known : authenticate c r.credentials ≡ some user
  pub access : user_can_access user r.mountpoint ≡ true
  pub total : at_limit c.max_rovers_total s.rover_total ≡ false
  pub per_ip : at_limit c.max_rovers_per_ip (count_of r.client_ip s) ≡ false

abbrev pub IsAccepted : Reply → Type 0
IsAccepted (accepted id) = Unit
IsAccepted forbidden = ⊥
IsAccepted unauthorized = ⊥
IsAccepted fails = ⊥

admit_user-eq :
    (c : Config) (user : User) (r : Request) (now : ℕ) (s : Server)
    → user_can_access user r.mountpoint ≡ true
    → at_limit c.max_rovers_total s.rover_total ≡ false
    → at_limit c.max_rovers_per_ip (count_of r.client_ip s) ≡ false
    → admit_user c user r now s
      ≡ open_session c (or_else (lookup user.tier c.tiers) default_tier) r now s
unfolding admit_user
admit_user-eq c user r now s access total per_ip = rw (access, total, per_ip) refl

admit-eq :
    (c : Config) (user : User) (r : Request) (now : ℕ) (s : Server)
    → has r.mountpoint s.disabled_mountpoints ≡ false
    → authenticate c r.credentials ≡ some user
    → admit c r now s ≡ admit_user c user r now s
unfolding admit admit_found
admit-eq c user r now s enabled known = rw enabled (ap (λ found. admit_found c found r now s) known)

admit-opens :
    (c : Config) (r : Request) (now : ℕ) (s : Server) (e : IsEntitled c r s)
    → admit c r now s ≡ open_session c (or_else (lookup e.user.tier c.tiers) default_tier) r now s
admit-opens c r now s e =
    admit-eq c e.user r now s e.enabled e.known
    ∙ admit_user-eq c e.user r now s e.access e.total e.per_ip

-- A rover that is entitled to it, and sends no GGA header or a readable one, is accepted under
-- the next number.
pub admit-accepts :
    (c : Config) (r : Request) (now : ℕ) (s : Server)
    → IsEntitled c r s
    → read_gga_header c.numbers r.gga_header ≢ none
    → (admit c r now s).1 ≡ accepted (s.id_seq + 1)
admit-accepts c r now s e readable =
    ap (λ p. p.1)
      (admit-opens c r now s e
        ∙ open_session-opens c (or_else (lookup e.user.tier c.tiers) default_tier) r now s readable)

-- A rover that is entitled to it, and sends a GGA header that cannot be read, gets no answer:
-- the handler fails before the rover is counted.
pub admit-unreadable :
    (c : Config) (r : Request) (now : ℕ) (s : Server)
    → IsEntitled c r s
    → read_gga_header c.numbers r.gga_header ≡ none
    → admit c r now s ≡ (record s { id_seq = s.id_seq + 1 }, fails)
admit-unreadable c r now s e bad =
    admit-opens c r now s e
    ∙ open_session-fails c (or_else (lookup e.user.tier c.tiers) default_tier) r now s bad

open_session-accepts :
    (c : Config) (tier : Tier) (r : Request) (now : ℕ) (s : Server)
    → IsAccepted (open_session c tier r now s).1
    → read_gga_header c.numbers r.gga_header ≢ none
open_session-accepts c tier r now s a bad =
    subst (λ p. IsAccepted p.1) (open_session-fails c tier r now s bad) a

admit_user-accepts :
    (c : Config) (user : User) (r : Request) (now : ℕ) (s : Server)
    → has r.mountpoint s.disabled_mountpoints ≡ false
    → authenticate c r.credentials ≡ some user
    → IsAccepted (admit_user c user r now s).1
    → IsEntitled c r s × (read_gga_header c.numbers r.gga_header ≢ none)
unfolding admit_user
admit_user-accepts c user r now s enabled known a =
    elim (Bool-cases (user_can_access user r.mountpoint)) [
      | inr e ↦ absurd (rw e at a)
      | inl access ↦ elim (Bool-cases (at_limit c.max_rovers_total s.rover_total)) [
        | inl e ↦ absurd (rw (access, e) at a)
        | inr total ↦ elim (Bool-cases (at_limit c.max_rovers_per_ip (count_of r.client_ip s))) [
          | inl e ↦ absurd (rw (access, total, e) at a)
          | inr per_ip ↦ (
            record {
              enabled = enabled;
              user = user;
              known = known;
              access = access;
              total = total;
              per_ip = per_ip;
            },
            open_session-accepts c (or_else (lookup user.tier c.tiers) default_tier) r now s
                (rw (access, total, per_ip) at a),
          )
        ]
      ]
    ]

admit_found-accepts :
    (c : Config) (found : Option User) (r : Request) (now : ℕ) (s : Server)
    → has r.mountpoint s.disabled_mountpoints ≡ false
    → authenticate c r.credentials ≡ found
    → IsAccepted (admit_found c found r now s).1
    → IsEntitled c r s × (read_gga_header c.numbers r.gga_header ≢ none)
unfolding admit_found
admit_found-accepts c none r now s enabled e a = absurd a
admit_found-accepts c (some user) r now s enabled e a =
    admit_user-accepts c user r now s enabled e a

-- Only a rover that is entitled to it is accepted: the mountpoint is enabled, the password is
-- right, the user may use the mountpoint, and no limit is reached; and its GGA header, if it
-- sends one, is readable.
pub admit-IsEntitled :
    (c : Config) (r : Request) (now : ℕ) (s : Server)
    → IsAccepted (admit c r now s).1
    → IsEntitled c r s × (read_gga_header c.numbers r.gga_header ≢ none)
unfolding admit
admit-IsEntitled c r now s a = elim (Bool-cases (has r.mountpoint s.disabled_mountpoints)) [
  | inl e ↦ absurd (rw e at a)
  | inr enabled ↦
      admit_found-accepts c (authenticate c r.credentials) r now s enabled refl (rw enabled at a)
]
