-- ===== src/Delivery/Manifest.antt =====
-- The manifest that a provider resolves, as far as delivery.go and pipeline.go read it (its type is
-- generated from proto/abcmovies/core/v1/media_source.proto), and the two checks on it.
use abcmovies.Base.{Bool, true, false, List, [], ◌∷◌, Text, if◌then◌else◌}

pub data SourceType : Type 0 where
  unspecified static live : SourceType

pub data Seekable : Type 0 where
  unspecified never full dvr_window : Seekable

pub data Addressable : Type 0 where
  unspecified per_track whole_mux : Addressable

pub record Track : Type 0 where
  pub id : Text
  -- `GetDelivery().GetLocations()`; no delivery has no locations
  pub locations : List Text
  -- a delivery with DRM
  pub has_drm : Bool

pub record MediaSource : Type 0 where
  pub source_type : SourceType
  pub seekable : Seekable
  pub addressable : Addressable
  pub tracks : List Track

abbrev pub is_empty {ℓ} : {A : Type ℓ} → List A → Bool
is_empty [] = true
is_empty (x ∷ xs) = false

specified_type : SourceType → Bool
specified_type SourceType.unspecified = false
specified_type s = true

specified_seekable : Seekable → Bool
specified_seekable Seekable.unspecified = false
specified_seekable s = true

specified_addressable : Addressable → Bool
specified_addressable Addressable.unspecified = false
specified_addressable a = true

-- `ValidateManifest(ms) == nil`, for a manifest that is not nil.
unfoldable pub validate_manifest : MediaSource → Bool
unfolding specified_type specified_seekable specified_addressable
validate_manifest ms =
    if specified_type ms.source_type
    then (if specified_seekable ms.seekable
        then (if specified_addressable ms.addressable
            then (if is_empty ms.tracks then false else true)
            else false)
        else false)
    else false

-- `RejectUnsupportedDRM(ms) == nil`
unfoldable pub drm_free : List Track → Bool
drm_free [] = true
drm_free (tr ∷ tracks) = if tr.has_drm then false else drm_free tracks
