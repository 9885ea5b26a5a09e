-- ===== src/Caster/Routes/Rights.antt =====
-- Who may change the configuration through the admin API of src/caster.py.
use babilcors.Prelude.{
  ℕ, ◌≡◌, ◌≢◌, refl, sym, ap, subst, ◌∙◌, Bool, true, false, ◌&&◌, Option, none, some, [], ◌∷◌,
  String, ◌++◌, if◌then◌else◌, arith, All-append,
}
use babilcors.Jwt.{role_allows}
use babilcors.Net.{starts_with}
use babilcors.Text.{split, lstrip_char, rstrip_char}
use babilcors.Json.{Text, codes, Value, Fields, same_text}
use babilcors.Text.Laws.{Lacks, split-append, split-Lacks, rstrip_char-append}
use babilcors.Caster.Routes.{
  Host, State, Answer, error, status, passes, Method, get, post, patch, delete, other, Resource,
  users, tiers, mountpoints, geofences,
}
use babilcors.Caster.Routes.Geofences.{Caller}
use babilcors.Caster.Routes.Operations.{disable}
use babilcors.Caster.Routes.Dispatch.{
  Request, parts_of, resource_named, resource_of, ident_of, is_bare, is_meta, is_write, may_edit,
  caller, on_users, on_tiers, on_mountpoints, edit_geofences, on_geofences, on_resource,
  is_geofences, guarded, is_operation, is_post, operate, on_operation, or_operation, find_route,
  dispatch,
}

-- A path that begins like an operation that writes is that of an operation.
pub record IsPlain (path : Text) : Type 0 where
  pub disables : starts_with (codes "/admin/disable") path ≡ true → is_operation path ≡ true
  pub enables : starts_with (codes "/admin/enable") path ≡ true → is_operation path ≡ true

post-is_write : (m : Method) → is_post m ≡ true → is_write m ≡ true
unfolding is_post is_write
post-is_write post h = refl
post-is_write get h = cc
post-is_write patch h = cc
post-is_write delete h = cc
post-is_write other h = cc

module _ (H : Host) (check : Value → Bool) where
  on_users-reads :
      (m : Method) (bare : Bool) (ident : Option Text) (body : Fields) (s : State)
      → is_write m ≡ false
      → (on_users H check m bare ident body s).0 ≡ s
  unfolding on_users is_write
  on_users-reads get bare ident body s h = refl
  on_users-reads other bare ident body s h = refl
  on_users-reads post bare ident body s h = cc
  on_users-reads patch bare ident body s h = cc
  on_users-reads delete bare ident body s h = cc

  on_tiers-reads :
      (m : Method) (bare : Bool) (ident : Option Text) (body : Fields) (s : State)
      → is_write m ≡ false
      → (on_tiers H check m bare ident body s).0 ≡ s
  unfolding on_tiers is_write
  on_tiers-reads get bare ident body s h = refl
  on_tiers-reads other bare ident body s h = refl
  on_tiers-reads post bare ident body s h = cc
  on_tiers-reads patch bare ident body s h = cc
  on_tiers-reads delete bare ident body s h = cc

  on_mountpoints-reads :
      (m : Method) (bare : Bool) (ident : Option Text) (meta : Bool) (body : Fields) (s : State)
      → is_write m ≡ false
      → (on_mountpoints H check m bare ident meta body s).0 ≡ s
  unfolding on_mountpoints is_write
  on_mountpoints-reads get bare ident meta body s h = refl
  on_mountpoints-reads other bare ident meta body s h = refl
  on_mountpoints-reads post bare ident meta body s h = cc
  on_mountpoints-reads patch bare ident meta body s h = cc
  on_mountpoints-reads delete bare ident meta body s h = cc

  edit_geofences-reads :
      (m : Method) (bare : Bool) (ident : Option Text) (who : Caller) (body : Fields) (s : State)
      → is_write m ≡ false
      → (edit_geofences H check m bare ident who body s).0 ≡ s
  unfolding edit_geofences is_write
  edit_geofences-reads get bare ident who body s h = refl
  edit_geofences-reads other bare ident who body s h = refl
  edit_geofences-reads post bare ident who body s h = cc
  edit_geofences-reads patch bare ident who body s h = cc
  edit_geofences-reads delete bare ident who body s h = cc

  module _ (r : Request) (reader : role_allows r.role true ≡ false) where
    on_operation-reads : (s : State) → IsPlain r.path → (on_operation H check r s).0 ≡ s
    unfolding on_operation operate
    on_operation-reads s plain = ground (arith, reader, plain.disables, plain.enables)

    guarded-reads :
        (res : Resource) (s : State) → may_edit r.role ≡ false → (guarded H check r res s).0 ≡ s
    unfolding guarded on_resource on_geofences is_geofences caller
    guarded-reads users s stranger =
        let rest =
          on_users-reads r.method (is_bare (parts_of r.path)) (ident_of (parts_of r.path)) r.body
            s in
        ground (arith, reader, rest)
    guarded-reads tiers s stranger =
        let rest =
          on_tiers-reads r.method (is_bare (parts_of r.path)) (ident_of (parts_of r.path)) r.body
            s in
        ground (arith, reader, rest)
    guarded-reads mountpoints s stranger =
        let rest =
          on_mountpoints-reads r.method (is_bare (parts_of r.path)) (ident_of (parts_of r.path))
            (is_meta (parts_of r.path)) r.body s in
        ground (arith, reader, rest)
    guarded-reads geofences s stranger =
        let rest =
          edit_geofences-reads r.method (is_bare (parts_of r.path)) (ident_of (parts_of r.path))
            (caller r) r.body s in
        ground (arith, reader, stranger, rest)

    -- A caller whose role may not write, and who is no editor of geofences, changes nothing by any
    -- request, if no path but those of the operations begins like them.
    pub dispatch-reads :
        (s : State) → may_edit r.role ≡ false → IsPlain r.path → (dispatch H check r s).0 ≡ s
    unfolding dispatch find_route or_operation
    dispatch-reads s stranger plain =
        either (r.has_query && _) (found (resource_of (parts_of r.path)))
      where
        kept : (p : State × Answer) → p.0 ≡ s → (or_operation H check r p).0 ≡ s
        kept (s', passes) e =
            subst (λ u. (on_operation H check r u).0 ≡ s) (sym e) (on_operation-reads s plain)
        kept (s', status n) e = e
        kept (s', error n) e = e
        kept (s', Answer.breaks) e = e

        found : (o : Option Resource) → (find_route H check r o s).0 ≡ s
        found none = on_operation-reads s plain
        found (some res) = kept (guarded H check r res s) (guarded-reads res s stranger)

        either :
            (b : Bool)
            → (find_route H check r (resource_of (parts_of r.path)) s).0 ≡ s
            → (if b
                then (s, error 400)
                else find_route H check r (resource_of (parts_of r.path)) s).0
              ≡ s
        either true e = refl
        either false e = e

disabling-parts :
    (d : ℕ) (t : Text)
    → Lacks 47 (d ∷ t)
    → parts_of (codes "/admin/disable" ++ d ∷ t) ≡ codes "admin" ∷ (codes "disable" ++ d ∷ t) ∷ []
unfolding parts_of lstrip_char
disabling-parts d t h =
    ap (split 47) (rstrip_char-append 47 (codes "admin/disable") d t h)
    ∙ split-append 47 (codes "admin") (codes "disable" ++ d ∷ t) (omega arith)
    ∙ ap (λ u. codes "admin" ∷ u)
        (split-Lacks 47 (codes "disable" ++ d ∷ t)
          (All-append (λ b. b ≢ 47) (codes "disable") (d ∷ t) (omega arith) h))

no_resource :
    (d : ℕ) (t : Text) → resource_of (codes "admin" ∷ (codes "disable" ++ d ∷ t) ∷ []) ≡ none
unfolding resource_of resource_named same_text
no_resource d t = refl

no_operation : (d : ℕ) (t : Text) → is_operation (codes "/admin/disable" ++ d ∷ t) ≡ false
unfolding is_operation same_text
no_operation d t = refl

disabling :
    (d : ℕ) (t : Text)
    → starts_with (codes "/admin/disable") (codes "/admin/disable" ++ d ∷ t) ≡ true
unfolding starts_with
disabling d t = refl

operated :
    (H : Host) (check : Value → Bool) (r : Request) (d : ℕ) (t : Text) (s : State)
    → r.path ≡ codes "/admin/disable" ++ d ∷ t
    → r.method ≡ post
    → find_route H check r none s ≡ disable H check r.body s
unfolding find_route on_operation operate is_post
operated H check r d t s path posts = rw (path, posts, no_operation d t, disabling d t)

exactly :
    (H : Host) (check : Value → Bool) (r : Request) (s : State)
    → r.path ≡ codes "/admin/disable"
    → r.method ≡ post
    → role_allows r.role true ≡ true
    → r.has_query ≡ false
    → dispatch H check r s ≡ disable H check r.body s
unfolding dispatch find_route on_operation operate is_post parts_of resource_of resource_named
    is_operation same_text starts_with split lstrip_char rstrip_char
exactly H check r s path posts writer plain = rw (plain, path, posts, writer) refl

-- A POST without a query to a path that goes on after `/admin/disable`, without a further `/`, by
-- a caller of any role, does and answers what the same POST to `/admin/disable` by a caller who
-- may write does and answers.
pub dispatch-any_role :
    (H : Host) (check : Value → Bool) (r : Request) (writer : String) (d : ℕ) (t : Text) (s : State)
    → Lacks 47 (d ∷ t)
    → r.path ≡ codes "/admin/disable" ++ d ∷ t
    → r.method ≡ post
    → r.has_query ≡ false
    → role_allows writer true ≡ true
    → dispatch H check r s
      ≡ dispatch H check (record r { path = codes "/admin/disable"; role = writer }) s
unfolding dispatch find_route on_operation operate
dispatch-any_role H check r writer d t s h path posts plain may =
    let nothing : resource_of (parts_of r.path) ≡ none =
      ap (λ p. resource_of (parts_of p)) path
      ∙ ap resource_of (disabling-parts d t h)
      ∙ no_resource d t in
    rw (plain, nothing) (operated H check r d t s path posts)
    ∙ sym (
        exactly H check (record r { path = codes "/admin/disable"; role = writer }) s refl posts may
          plain)
