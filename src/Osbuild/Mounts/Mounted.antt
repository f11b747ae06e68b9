-- ===== src/Osbuild/Mounts/Mounted.antt =====
-- What `GenMountsDevicesFromPT` returns.
use mathlib.Core.Path.{subst}
use mathlib.Core.List.{map-append, append_assoc, append-nil}
use image_builder.Prelude.{
  String, ◌≡◌, refl, sym, ap, ◌∙◌, Bool, true, false, ◌||◌, some, List, [], ◌∷◌, ◌++◌, map, str_eq,
  eq_iff, arith, All, All-append, All-mono, Bool-cases, inl, inr, if◌then◌else◌,
}
use image_builder.Prelude.Result.{ok, IfOk, IfOk-bind, IfOk-map, IfOk-self}
use image_builder.Dictionary.{lookup}
use image_builder.Disk.Paths.{Mountable, get_mountpoint}
use image_builder.Disk.Walks.{Entity, Visit}
use image_builder.Osbuild.Devices.{Device, Devices, path_escape, get_devices}
use image_builder.Osbuild.Devices.Closed.{
  InDevices, IsClosed, IsRooted-mono, IsChain, IsBelow, AreBelow, get_devices-IsChain,
}
use image_builder.Osbuild.Mounts.{
  MountError, Mount, gen_osbuild_mount, add_devices, Gathered, gen_mount, gen_mounts,
}
use image_builder.Osbuild.Mounts.Named.{IsMountOf, gen_osbuild_mount-IsMountOf}
use image_builder.Osbuild.Mounts.Merged.{HasEntry, IsMerged, add_devices-IsMerged}

-- Go ranges over the entries of a map, each one and no other.
pub record RangesOver (range : Devices → Devices) : Type 0 where
  pub each :
      (ds : Devices) (name : String) (device : Device)
      → lookup name ds ≡ some device
      → HasEntry name device (range ds)
  pub only :
      (ds : Devices) (name : String) (device : Device)
      → HasEntry name device (range ds)
      → lookup name ds ≡ some device

-- A mountable for "/" is among the visited ones.
abbrev pub has_root : List (Visit Mountable) → Bool
has_root [] = false
has_root ((mnt, path) ∷ visits) = str_eq (get_mountpoint mnt) "/" || has_root visits

has_root-snoc :
    (visits : List (Visit Mountable)) (visit : Visit Mountable)
    → has_root (visits ++ visit ∷ []) ≡ (has_root visits || str_eq (get_mountpoint visit.0) "/")
has_root-snoc [] visit = ground arith
has_root-snoc (v ∷ visits) visit = ground (arith, has_root-snoc visits visit)

pub or_true : (b : Bool) → (b || true) ≡ true
or_true true = refl
or_true false = refl

or_false : (b : Bool) → (b || false) ≡ b
or_false true = refl
or_false false = refl

root_escaped : path_escape "/" ≡ "-"
unfolding path_escape
root_escaped = refl

root_named :
    (visits : List (Visit Mountable)) (mnt : Mountable) (path : List Entity) (name root : String)
    → name ≡ path_escape (get_mountpoint mnt)
    → root ≡ (if has_root visits then "-" else "")
    → (if str_eq (get_mountpoint mnt) "/" then name else root)
      ≡ (if has_root (visits ++ (mnt, path) ∷ []) then "-" else "")
root_named visits mnt path name root named before =
    elim (Bool-cases (str_eq (get_mountpoint mnt) "/")) [
      | inl here ↦
          rw (has_root-snoc visits (mnt, path), here)
            (named
              ∙ ap path_escape ((eq_iff (get_mountpoint mnt) "/").0 here)
              ∙ root_escaped
              ∙ sym (ap (λ b. if b then "-" else "") (or_true (has_root visits))))
      | inr other ↦
          rw (has_root-snoc visits (mnt, path), other)
            (before ∙ sym (ap (λ b. if b then "-" else "") (or_false (has_root visits))))
    ]

module _ (filename : String) where
  -- The devices hold those of the path.
  abbrev pub HoldsPath : Devices → Visit Mountable → Type 0
  HoldsPath devices visit =
      IfOk
        (λ (found : Devices × String).
          (name : String) (device : Device)
          → lookup name found.0 ≡ some device
          → lookup name devices ≡ some device)
        (get_devices {E = MountError} filename false visit.1)

  -- What has been gathered from the visits.
  pub record IsGathered (visits : List (Visit Mountable)) (st : Gathered) : Type 0 where
    pub targets :
        map (λ (m : Mount). m.target) st.mounts
        ≡ map (λ (visit : Visit Mountable). get_mountpoint visit.0) visits
    pub sources : All (λ (m : Mount). InDevices st.devices m.source) st.mounts
    pub closed : IsClosed st.devices
    pub paths : All (HoldsPath st.devices) visits
    pub root : st.fs_root_mnt_name ≡ (if has_root visits then "-" else "")

  module _ (range : Devices → Devices) (ranges : RangesOver range) where
    -- One more mountable.
    gathers :
        (visits : List (Visit Mountable)) (st : Gathered) (mnt : Mountable) (path : List Entity)
        (found : Devices × String) (mount : Mount) (devices : Devices)
        → IsGathered visits st
        → get_devices {E = MountError} filename false path ≡ ok found
        → IsChain found
        → IsMountOf found.1 mnt mount
        → IsMerged st.devices (range found.0) devices
        → IsGathered (visits ++ (mnt, path) ∷ []) (record {
          fs_root_mnt_name =
              if str_eq (get_mountpoint mnt) "/" then mount.name else st.fs_root_mnt_name;
          mounts = st.mounts ++ mount ∷ [];
          devices = devices;
        })
    gathers visits st mnt path found mount devices before at chain made merged =
        let kept : (name : String) → InDevices st.devices name → InDevices devices name =
          λ name old. (old.0, merged.keeps name old.0 old.1) in
        let added : (name : String) (device : Device)
            → lookup name found.0 ≡ some device
            → lookup name devices ≡ some device =
          λ name device here. merged.has name device (ranges.each found.0 name device here) in
        record {
          targets =
              map-append (λ (m : Mount). m.target) st.mounts (mount ∷ [])
              ∙ ap (λ ts. ts ++ mount.target ∷ []) before.targets
              ∙ ap (λ t. map (λ (visit : Visit Mountable). get_mountpoint visit.0) visits ++ t ∷ [])
                  made.at_target
              ∙ sym (
                  map-append (λ (visit : Visit Mountable). get_mountpoint visit.0) visits
                    ((mnt, path) ∷ []));
          sources =
              All-append _ _ _
                (All-mono _ _ st.mounts (λ (m : Mount). kept m.source) before.sources)
                (
                  subst (InDevices devices) (sym made.on_source)
                      (chain.1.0, added found.1 chain.1.0 chain.1.1),
                  tt,
                );
          closed = λ name device here. elim (merged.only name device here) [
            | inl old ↦ IsRooted-mono st.devices devices device kept (before.closed name device old)
            | inr new ↦
                IsRooted-mono found.0 devices device
                  (λ name there. (there.0, added name there.0 there.1))
                  (chain.0 name device (ranges.only found.0 name device new))
          ];
          paths =
              All-append _ _ _
                (All-mono _ _ visits
                  (λ (v : Visit Mountable) holds.
                    IfOk-map _ _ (get_devices filename false v.1) holds
                      (λ found' old name device here.
                        merged.keeps name device (old name device here)))
                  before.paths)
                (subst (IfOk _) (sym at) added, tt);
          root = root_named visits mnt path mount.name st.fs_root_mnt_name made.named before.root;
        }

    gen_mount-IsGathered :
        (visits : List (Visit Mountable)) (st : Gathered) (mnt : Mountable) (path : List Entity)
        → IsBelow path
        → IsGathered visits st
        → IfOk (IsGathered (visits ++ (mnt, path) ∷ [])) (gen_mount range filename st (mnt, path))
    unfolding gen_mount
    gen_mount-IsGathered visits st mnt path below before =
        let Q : Gathered → Type 0 = IsGathered (visits ++ (mnt, path) ∷ []) in
        IfOk-bind
          (λ found. (get_devices {E = MountError} filename false path ≡ ok found) × IsChain found) Q
          (get_devices filename false path) _
          (IfOk-self IsChain (get_devices filename false path)
            (get_devices-IsChain MountError filename false path below))
          (λ found chain.
            IfOk-bind (IsMountOf found.1 mnt) Q (gen_osbuild_mount found.1 mnt) _
              (gen_osbuild_mount-IsMountOf found.1 mnt)
              (λ mount made.
                IfOk-bind (IsMerged st.devices (range found.0)) Q
                  (add_devices st.devices (range found.0)) _
                  (add_devices-IsMerged st.devices (range found.0))
                  (λ devices merged.
                    gathers visits st mnt path found mount devices before chain.0 chain.1 made
                      merged)))

    pub gen_mounts-IsGathered :
        (done todo : List (Visit Mountable)) (st : Gathered)
        → AreBelow todo
        → IsGathered done st
        → IfOk (IsGathered (done ++ todo)) (gen_mounts range filename st todo)
    unfolding gen_mounts
    gen_mounts-IsGathered done [] st below before = rw append-nil before
    gen_mounts-IsGathered done ((mnt, path) ∷ todo) st below before =
        IfOk-bind (IsGathered (done ++ (mnt, path) ∷ [])) (IsGathered (done ++ (mnt, path) ∷ todo))
          (gen_mount range filename st (mnt, path)) (λ st'. gen_mounts range filename st' todo)
          (gen_mount-IsGathered done st mnt path below.0 before)
          (λ st' gathered.
            subst (λ visits. IfOk (IsGathered visits) (gen_mounts range filename st' todo))
              (append_assoc done ((mnt, path) ∷ []) todo)
              (gen_mounts-IsGathered (done ++ (mnt, path) ∷ []) todo st' below.1 gathered))
