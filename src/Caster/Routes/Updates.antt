-- ===== src/Caster/Routes/Updates.antt =====
-- What every update of the configuration keeps, every request to the admin API keeps.
use babilcors.Prelude.{Bool, true, false, not, ◌&&◌, Option, none, some, if◌then◌else◌}
use babilcors.Net.{starts_with}
use babilcors.Json.{Text, codes, Value, Fields}
use babilcors.Caster.Routes.{
  Host, State, Updated, Result, updated, failed, forbidden, update_config, Answer, status, error,
  breaks, passes, answer_by, Method, get, post, patch, delete, other, Resource, users, tiers,
  mountpoints, geofences,
}
use babilcors.Caster.Routes.Resources.{
  post_user, patch_user, delete_entry, post_tier, patch_tier, post_mountpoint, delete_mountpoint,
  post_meta,
}
use babilcors.Caster.Routes.Geofences.{
  Caller, save_geofence, post_in_mode, post_geofence, patch_geofence, delete_geofence, is_polygon,
}
use babilcors.Caster.Routes.Operations.{change_mountpoint, disable, enable}
use babilcors.Caster.Routes.Dispatch.{
  Request, parts_of, resource_of, ident_of, is_bare, is_meta, is_nobody, caller, on_users, on_tiers,
  on_mountpoints, edit_geofences, on_geofences, on_resource, guarded, operate, on_operation,
  or_operation, find_route, dispatch,
}
use babilcors.Caster.Reading.Loop.{branch}

module _ (H : Host) (check : Value → Bool) where
  answer-state :
      (P : State → Type 0) (a b c : Answer) (p : State × Result) → P p.0 → P (answer_by a b c p).0
  unfolding answer_by
  answer-state P a b c (s, updated) h = h
  answer-state P a b c (s, failed) h = h
  answer-state P a b c (s, forbidden) h = h

  -- What an update of the configuration keeps, whatever the updater is, every request keeps.
  module _ (P : State → Type 0)
      (keeps : (u : Fields → Updated) (s : State) → P s → P (update_config check u s).0) where
    updates :
        (a b c : Answer) (u : Fields → Updated) (s : State)
        → P s
        → P (answer_by a b c (update_config check u s)).0
    updates a b c u s h = answer-state P a b c (update_config check u s) (keeps u s h)

    -- An error, or an update.
    tried :
        (t : Bool) (e a b c : Answer) (u : Fields → Updated) (s : State)
        → P s
        → P (if t then (s, e) else answer_by a b c (update_config check u s)).0
    tried t e a b c u s h = branch (λ (p : State × Answer). P p.0) t _ _ h (updates a b c u s h)

    save-keeps :
        (who : Caller) (gid : Text) (poly : Option Value) (mode : Text) (gj : Option Fields)
        (body : Fields) (s : State)
        → P s
        → P (save_geofence H check who gid poly mode gj body s).0
    unfolding save_geofence
    save-keeps who gid none mode gj body s h = h
    save-keeps who gid (some poly) mode gj body s h = tried (not (is_polygon poly)) _ _ _ _ _ s h

    post-keeps :
        (who : Caller) (body : Fields) (s : State) (mode : Option Text)
        → P s
        → P (post_in_mode H check who body s mode).0
    unfolding post_in_mode
    post-keeps who body s none h = h
    post-keeps who body s (some mode) h =
        branch (λ (p : State × Answer). P p.0) _ _ _ h (save-keeps who _ _ mode _ body s h)

    users-keeps :
        (m : Method) (bare : Bool) (ident : Option Text) (body : Fields) (s : State)
        → P s
        → P (on_users H check m bare ident body s).0
    unfolding on_users post_user patch_user delete_entry
    users-keeps post true ident body s h = tried _ _ _ _ _ _ s h
    users-keeps post false ident body s h = h
    users-keeps patch bare (some ident) body s h = tried _ _ _ _ _ _ s h
    users-keeps patch bare none body s h = h
    users-keeps delete bare (some ident) body s h = updates _ _ _ _ s h
    users-keeps delete bare none body s h = h
    users-keeps get bare ident body s h = h
    users-keeps other bare ident body s h = h

    tiers-keeps :
        (m : Method) (bare : Bool) (ident : Option Text) (body : Fields) (s : State)
        → P s
        → P (on_tiers H check m bare ident body s).0
    unfolding on_tiers post_tier patch_tier delete_entry
    tiers-keeps post true ident body s h = tried _ _ _ _ _ _ s h
    tiers-keeps post false ident body s h = h
    tiers-keeps patch bare (some ident) body s h = tried _ _ _ _ _ _ s h
    tiers-keeps patch bare none body s h = h
    tiers-keeps delete bare (some ident) body s h = updates _ _ _ _ s h
    tiers-keeps delete bare none body s h = h
    tiers-keeps get bare ident body s h = h
    tiers-keeps other bare ident body s h = h

    mountpoints-keeps :
        (m : Method) (bare : Bool) (ident : Option Text) (meta : Bool) (body : Fields) (s : State)
        → P s
        → P (on_mountpoints H check m bare ident meta body s).0
    unfolding on_mountpoints post_mountpoint post_meta delete_mountpoint
    mountpoints-keeps post true ident meta body s h = tried _ _ _ _ _ _ s h
    mountpoints-keeps post false (some ident) true body s h = updates _ _ _ _ s h
    mountpoints-keeps post false (some ident) false body s h = h
    mountpoints-keeps post false none meta body s h = h
    mountpoints-keeps patch bare (some ident) true body s h = updates _ _ _ _ s h
    mountpoints-keeps patch bare (some ident) false body s h = h
    mountpoints-keeps patch bare none meta body s h = h
    mountpoints-keeps delete bare (some ident) meta body s h = updates _ _ _ _ s h
    mountpoints-keeps delete bare none meta body s h = h
    mountpoints-keeps get bare ident meta body s h = h
    mountpoints-keeps other bare ident meta body s h = h

    geofences-keeps :
        (m : Method) (bare : Bool) (ident : Option Text) (who : Caller) (body : Fields) (s : State)
        → P s
        → P (edit_geofences H check m bare ident who body s).0
    unfolding edit_geofences post_geofence patch_geofence delete_geofence
    geofences-keeps post true ident who body s h = post-keeps who body s _ h
    geofences-keeps post false ident who body s h = h
    geofences-keeps patch bare (some ident) who body s h = tried _ _ _ _ _ _ s h
    geofences-keeps patch bare none who body s h = h
    geofences-keeps delete bare (some ident) who body s h = updates _ _ _ _ s h
    geofences-keeps delete bare none who body s h = h
    geofences-keeps get bare ident who body s h = h
    geofences-keeps other bare ident who body s h = h

    on_geofences-keeps :
        (r : Request) (who : Caller) (bare : Bool) (ident : Option Text) (s : State)
        → P s
        → P (on_geofences H check r who bare ident s).0
    unfolding on_geofences
    on_geofences-keeps r who bare ident s h =
        let Q = λ (p : State × Answer). P p.0 in
        branch Q _ _ _ h (
          branch Q (who.is_editor && is_nobody r.sub) _ _ h
            (geofences-keeps r.method bare ident who r.body s h))

    resource-keeps :
        (r : Request) (res : Resource) (bare : Bool) (ident : Option Text) (meta : Bool) (s : State)
        → P s
        → P (on_resource H check r res bare ident meta s).0
    unfolding on_resource
    resource-keeps r users bare ident meta s h = users-keeps r.method bare ident r.body s h
    resource-keeps r tiers bare ident meta s h = tiers-keeps r.method bare ident r.body s h
    resource-keeps r mountpoints bare ident meta s h =
        mountpoints-keeps r.method bare ident meta r.body s h
    resource-keeps r geofences bare ident meta s h = on_geofences-keeps r (caller r) bare ident s h

    guarded-keeps : (r : Request) (res : Resource) (s : State) → P s → P (guarded H check r res s).0
    unfolding guarded
    guarded-keeps r res s h =
        branch (λ (p : State × Answer). P p.0) _ _ _ h
          (resource-keeps r res (is_bare (parts_of r.path)) (ident_of (parts_of r.path))
            (is_meta (parts_of r.path)) s h)

    changes-keep :
        (change : _) (body : Fields) (s : State)
        → P s
        → P (change_mountpoint H check change body s).0
    unfolding change_mountpoint
    changes-keep change body s h = tried _ _ _ _ _ _ s h

    operation-keeps : (r : Request) (s : State) → P s → P (on_operation H check r s).0
    unfolding on_operation operate disable enable
    operation-keeps r s h =
        let Q = λ (p : State × Answer). P p.0 in
        branch Q _ _ _ h (
          branch Q (starts_with (codes "/admin/disable") r.path) _ _
            (branch Q _ _ _ (changes-keep _ r.body s h) h)
            (branch Q (starts_with (codes "/admin/enable") r.path) _ _
              (branch Q _ _ _ (changes-keep _ r.body s h) h) h))

    found-keeps :
        (r : Request) (o : Option Resource) (s : State) → P s → P (find_route H check r o s).0
    unfolding find_route or_operation
    found-keeps r none s h = operation-keeps r s h
    found-keeps r (some res) s h = after (guarded H check r res s) (guarded-keeps r res s h)
      where
        after : (p : State × Answer) → P p.0 → P (or_operation H check r p).0
        after (s', passes) k = operation-keeps r s' k
        after (s', status n) k = k
        after (s', error n) k = k
        after (s', breaks) k = k

    pub dispatch-keeps : (r : Request) (s : State) → P s → P (dispatch H check r s).0
    unfolding dispatch
    dispatch-keeps r s h =
        branch (λ (p : State × Answer). P p.0) _ _ _ h
          (found-keeps r (resource_of (parts_of r.path)) s h)
