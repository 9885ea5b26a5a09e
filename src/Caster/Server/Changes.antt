-- ===== src/Caster/Server/Changes.antt =====
-- What the admission of a rover does to the counters of rovers, on each of its branches.
use babilcors.Prelude.{
  ℕ, ◌+◌, ◌≡◌, ◌≢◌, refl, subst, sym, ap, inl, inr, false, Option, none, some, String, or_else,
  arith, Bool-cases, Option-cases, ◌∙◌,
}
use mathlib.Core.Option.{none-ne-some}
use babilcors.Prelude.Dict.{string_eq, lookup, insert}
use babilcors.Tiers.{Tier}
use babilcors.Caster.Hub.{Session}
use babilcors.Caster.Server.{
  new_session, User, user_can_access, default_tier, has, authenticate, Config, Server, Request,
  Reply, forbidden, unauthorized, fails, accepted, admit, admit_found, admit_user, open_session,
  read_gga_header, register, get_or_create_hub, count_unauthorized, at_limit,
}

abbrev pub count_of : String → Server → ℕ
count_of ip s = or_else (lookup ip s.rover_ip_counts) 0

abbrev pub IsRefusal : Reply → Type 0
IsRefusal (accepted id) = ⊥
IsRefusal forbidden = Unit
IsRefusal unauthorized = Unit
IsRefusal fails = Unit

-- What an answer does to the counters: nothing, or one more under limits that allow it.
pub data Change (c : Config) (r : Request) (s : Server) : Server × Reply → Type 0 where
  same :
      {s' : Server} {a : Reply}
      → s'.rover_total ≡ s.rover_total
      → s'.rover_ip_counts ≡ s.rover_ip_counts
      → IsRefusal a
      → Change c r s (s', a)
  more :
      {s' : Server} {id : ℕ}
      → at_limit c.max_rovers_total s.rover_total ≡ false
      → at_limit c.max_rovers_per_ip (count_of r.client_ip s) ≡ false
      → s'.rover_total ≡ s.rover_total + 1
      → s'.rover_ip_counts ≡ insert r.client_ip (count_of r.client_ip s + 1) s.rover_ip_counts
      → Change c r s (s', accepted id)

get_or_create_hub-counts :
    (m : String) (s : Server)
    → ((get_or_create_hub m s).1.rover_total ≡ s.rover_total)
      × ((get_or_create_hub m s).1.rover_ip_counts ≡ s.rover_ip_counts)
unfolding get_or_create_hub
get_or_create_hub-counts m s = ground arith

register-counts :
    (r : Request) (session : Session) (s : Server)
    → ((register r session s).rover_total ≡ s.rover_total + 1)
      × ((register r session s).rover_ip_counts
          ≡ insert r.client_ip (count_of r.client_ip s + 1) s.rover_ip_counts)
unfolding register
register-counts r session s =
    let (total, counts) = get_or_create_hub-counts r.mountpoint s in
    (
      omega (arith, total),
      ap (λ d. insert r.client_ip (or_else (lookup r.client_ip d) 0 + 1) d) counts,
    )

pub open_session-opens :
    (c : Config) (tier : Tier) (r : Request) (now : ℕ) (s : Server)
    → read_gga_header c.numbers r.gga_header ≢ none
    → open_session c tier r now s ≡ (
      register r (new_session (s.id_seq + 1) tier now) (record s { id_seq = s.id_seq + 1 }),
      accepted (s.id_seq + 1),
    )
unfolding open_session register
open_session-opens c tier r now s e = elim (Option-cases (read_gga_header c.numbers r.gga_header)) [
  | inl bad ↦ absurd (e bad)
  | inr (gga, good) ↦ rw (good, open_session) refl
]

pub open_session-fails :
    (c : Config) (tier : Tier) (r : Request) (now : ℕ) (s : Server)
    → read_gga_header c.numbers r.gga_header ≡ none
    → open_session c tier r now s ≡ (record s { id_seq = s.id_seq + 1 }, fails)
unfolding open_session
open_session-fails c tier r now s e = rw (e, open_session) refl

open_session-Change :
    (c : Config) (tier : Tier) (r : Request) (now : ℕ) (s : Server)
    → at_limit c.max_rovers_total s.rover_total ≡ false
    → at_limit c.max_rovers_per_ip (count_of r.client_ip s) ≡ false
    → Change c r s (open_session c tier r now s)
open_session-Change c tier r now s f f' =
    let s₁ : Server = record s { id_seq = s.id_seq + 1 } in
    elim (Option-cases (read_gga_header c.numbers r.gga_header)) [
      | inl e ↦
          subst (Change c r s) (sym (open_session-fails c tier r now s e))
            (same {s' = s₁} {a = fails} refl refl tt)
      | inr (gga, e) ↦
          let (total, counts) = register-counts r (new_session (s.id_seq + 1) tier now) s₁ in
          subst (Change c r s)
            (sym (open_session-opens c tier r now s (λ bad. none-ne-some gga (sym bad ∙ e))))
            (more {s' = register r (new_session (s.id_seq + 1) tier now) s₁} {id = s.id_seq + 1} f
              f' total counts)
    ]

admit_user-Change :
    (c : Config) (user : User) (r : Request) (now : ℕ) (s : Server)
    → Change c r s (admit_user c user r now s)
unfolding admit_user
admit_user-Change c user r now s = elim (Bool-cases (user_can_access user r.mountpoint)) [
  | inr no_access ↦ rw no_access (same {s' = s} {a = forbidden} refl refl tt)
  | inl access ↦ elim (Bool-cases (at_limit c.max_rovers_total s.rover_total)) [
    | inl over ↦ rw (access, over) (same {s' = s} {a = forbidden} refl refl tt)
    | inr f ↦ elim (Bool-cases (at_limit c.max_rovers_per_ip (count_of r.client_ip s))) [
      | inl over ↦ rw (access, f, over) (same {s' = s} {a = forbidden} refl refl tt)
      | inr f' ↦
          rw (access, f, f')
            (open_session-Change c (or_else (lookup user.tier c.tiers) default_tier) r now s f f')
    ]
  ]
]

admit_found-Change :
    (c : Config) (found : Option User) (r : Request) (now : ℕ) (s : Server)
    → Change c r s (admit_found c found r now s)
unfolding admit_found count_unauthorized
admit_found-Change c none r now s =
    same {s' = count_unauthorized r.mountpoint s} {a = unauthorized} refl refl tt
admit_found-Change c (some user) r now s = admit_user-Change c user r now s

pub admit-Change :
    (c : Config) (r : Request) (now : ℕ) (s : Server) → Change c r s (admit c r now s)
unfolding admit
admit-Change c r now s = elim (Bool-cases (has r.mountpoint s.disabled_mountpoints)) [
  | inl disabled ↦ rw disabled (same {s' = s} {a = forbidden} refl refl tt)
  | inr enabled ↦ rw enabled (admit_found-Change c (authenticate c r.credentials) r now s)
]
