-- ===== src/Coherence/Permission.antt =====
-- The order of permissions: facts on states that the controllers' proofs share.
use bzsim.Base.{◌≡◌, refl, true, false}
use bzsim.Coherence.{
  MesiState, invalid, shared, exclusive, modified, is_invalid, has_exclusive, is_modified,
}
use bzsim.Coherence.Top.Children.{Rises}

pub exclusive-valid : (state : MesiState) → has_exclusive state ≡ true → is_invalid state ≡ false
exclusive-valid invalid h = cc
exclusive-valid state h = refl

pub modified_exclusive : (state : MesiState) → is_modified state ≡ true → has_exclusive state ≡ true
modified_exclusive modified h = refl
modified_exclusive state h = cc

pub modified-exclusive :
    (state : MesiState) → has_exclusive state ≡ false → is_modified state ≡ false
modified-exclusive modified h = cc
modified-exclusive state h = refl

pub Rises-self : (state : MesiState) → Rises state state
Rises-self invalid = tt
Rises-self shared = refl
Rises-self exclusive = refl
Rises-self modified = refl

pub Rises-invalid : (old new : MesiState) → is_invalid old ≡ true → Rises old new
Rises-invalid invalid new h = tt
Rises-invalid old new h = cc

pub Rises-modified : (state : MesiState) → Rises state modified
Rises-modified invalid = tt
Rises-modified shared = refl
Rises-modified exclusive = refl
Rises-modified modified = refl

pub Rises-exclusive : (state : MesiState) → Rises state exclusive
Rises-exclusive invalid = tt
Rises-exclusive shared = refl
Rises-exclusive exclusive = refl
Rises-exclusive modified = refl

-- No exclusive permission: no more than a shared line.
pub Rises-shared : (state : MesiState) → has_exclusive state ≡ false → Rises state shared
Rises-shared invalid h = tt
Rises-shared shared h = refl
Rises-shared state h = cc

pub Rises-valid :
    (old new : MesiState) → has_exclusive old ≡ false → is_invalid new ≡ false → Rises old new
Rises-valid invalid new h k = tt
Rises-valid shared new h k = k
Rises-valid exclusive new h k = cc
Rises-valid modified new h k = cc

pub Rises-owner : (old new : MesiState) → has_exclusive new ≡ true → Rises old new
Rises-owner invalid new h = tt
Rises-owner shared new h = exclusive-valid new h
Rises-owner exclusive new h = h
Rises-owner modified new h = h

pub Rises-has_exclusive :
    (old new : MesiState) → Rises old new → has_exclusive old ≡ true → has_exclusive new ≡ true
Rises-has_exclusive exclusive new h k = h
Rises-has_exclusive modified new h k = h
Rises-has_exclusive old new h k = cc

pub has_exclusive-Rises :
    (old new : MesiState) → Rises old new → has_exclusive new ≡ false → has_exclusive old ≡ false
has_exclusive-Rises invalid new h e = refl
has_exclusive-Rises shared new h e = refl
has_exclusive-Rises exclusive new h e = cc
has_exclusive-Rises modified new h e = cc

pub below-valid :
    (old new : MesiState) → Rises old new → is_invalid old ≡ false → is_invalid new ≡ false
below-valid invalid new h k = cc
below-valid shared new h k = h
below-valid exclusive exclusive h k = refl
below-valid exclusive modified h k = refl
below-valid exclusive new h k = cc
below-valid modified exclusive h k = refl
below-valid modified modified h k = refl
below-valid modified new h k = cc

pub Rises-trans : (a b c : MesiState) → Rises a b → Rises b c → Rises a c
Rises-trans invalid b c h k = tt
Rises-trans shared shared c h k = k
Rises-trans shared invalid c h k = cc
Rises-trans shared exclusive c h k = exclusive-valid c k
Rises-trans shared modified c h k = exclusive-valid c k
Rises-trans exclusive exclusive c h k = k
Rises-trans exclusive modified c h k = k
Rises-trans exclusive invalid c h k = cc
Rises-trans exclusive shared c h k = cc
Rises-trans modified exclusive c h k = k
Rises-trans modified modified c h k = k
Rises-trans modified invalid c h k = cc
Rises-trans modified shared c h k = cc
