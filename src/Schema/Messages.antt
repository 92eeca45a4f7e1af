-- ===== src/Schema/Messages.antt =====
-- The messages of slots and of the API in core/internal/schema: schema.go, provider.go and api.go. A wire
-- enum is its number, a pointer is an option, and what the checks do not read is left out.
use abcmovies.Base.{
  ℕ, Bool, true, false, not, ◌&&◌, ◌||◌, List, [], ◌∷◌, Text, eqb, blank, if◌then◌else◌, Option,
  none, some,
}
use abcmovies.Identity.Match.{ExternalId}
use abcmovies.ItemRegistry.Records.{CatalogueItem, validate_catalogue_item}
use abcmovies.MetadataCache.Cache.{is_external_id}
use abcmovies.Enrichment.Merge.{TitleMetadata}
use abcmovies.Enrichment.Engine.{LookupTitleRequest, TitleCandidate, GetMetadataResponse}
use abcmovies.Schema.Source.{no_items, MediaSource, validate_media_source}
use abcmovies.Schema.Jobs.{Job, validate_job}
use abcmovies.Schema.Entries.{LibraryEntry, validate_library_entry, validate_title_metadata}

-- A message that is not nil and passes a test.
abbrev pub present_and {ℓ} : {A : Type ℓ} → (A → Bool) → Option A → Bool
present_and p none = false
present_and p (some m) = p m

-- The slices whose elements all pass a test.
abbrev pub every {ℓ} : {A : Type ℓ} → (A → Bool) → List A → Bool
every p [] = true
every p (x ∷ xs) = p x && every p xs

unfoldable pub validate_lookup_title_request : Option LookupTitleRequest → Bool
validate_lookup_title_request m = present_and (λ r. not (blank r.query)) m

unfoldable pub validate_lookup_title_response : Option (List TitleCandidate) → Bool
validate_lookup_title_response m =
    present_and (λ cs. every (λ c. not (blank c.ref || blank c.title)) cs) m

-- The reference of a request.
unfoldable pub validate_get_metadata_request : Option Text → Bool
validate_get_metadata_request m =
    present_and (λ ref. if blank ref then false else is_external_id ref) m

abbrev pub whole_id : Option ExternalId → Bool
whole_id none = false
whole_id (some id) = not (blank id.namespace || blank id.value)

unfoldable pub validate_get_metadata_response : Option GetMetadataResponse → Bool
validate_get_metadata_response m =
    present_and
      (λ r. present_and (λ tm. not (blank tm.title)) r.metadata && every whole_id r.external_ids) m

-- Requests of providers: the account, and what else is required.
unfoldable pub validate_catalogue_sync_request : Option Text → Bool
validate_catalogue_sync_request m = present_and (λ account_id. not (blank account_id)) m

unfoldable pub validate_produce_sources_request : Option (Text × Text) → Bool
validate_produce_sources_request none = false
validate_produce_sources_request (some (account_id, native_id)) =
    not (blank account_id || blank native_id)

unfoldable pub validate_produce_sources_response : Option (Option MediaSource) → Bool
validate_produce_sources_response m = present_and validate_media_source m

unfoldable pub validate_search_catalog_request : Option (Text × Text) → Bool
validate_search_catalog_request none = false
validate_search_catalog_request (some (account_id, query)) = not (blank account_id || blank query)

-- One page of search matches, of a browse listing, or of an availability answer.
unfoldable pub validate_items_response : Option (List CatalogueItem) → Bool
validate_items_response m = present_and (λ items. every validate_catalogue_item items) m

unfoldable pub validate_browse_catalog_request : Option Text → Bool
validate_browse_catalog_request m = present_and (λ account_id. not (blank account_id)) m

unfoldable pub validate_refresh_availability_request : Option (Text × List Text) → Bool
validate_refresh_availability_request none = false
validate_refresh_availability_request (some (account_id, native_ids)) =
    not (blank account_id || no_items native_ids)

-- The job of a response to GetJob and to StartDelivery.
unfoldable pub validate_get_job_response : Option (Option Job) → Bool
validate_get_job_response none = false
validate_get_job_response (some none) = true
validate_get_job_response (some (some j)) = validate_job (some j)

unfoldable pub validate_start_delivery_response : Option (Option Job) → Bool
validate_start_delivery_response m = present_and validate_job m

-- Username, and the password's bytes where the password method is there: SignUp and Login alike.
unfoldable pub validate_credentials : Option (Text × Option Text) → Bool
validate_credentials none = false
validate_credentials (some (username, none)) = false
validate_credentials (some (username, some password)) = not (blank username || no_items password)

pub record StartDeliveryRequest : Type 0 where
  pub goal : ℕ
  pub provider : Text
  pub account_id : Text
  pub native_id : Text
  pub sink : Text

unfoldable pub validate_start_delivery_request : Option StartDeliveryRequest → Bool
validate_start_delivery_request none = false
validate_start_delivery_request (some r) = not (
    eqb r.goal 0
    || (blank r.provider || (blank r.account_id || (blank r.native_id || blank r.sink))))

pub record LibraryItem : Type 0 where
  pub entry : Option LibraryEntry
  pub metadata : Option TitleMetadata

abbrev pub library_item : Option LibraryItem → Bool
library_item none = false
library_item (some item) =
    validate_library_entry item.entry
    && elim item.metadata [ none ↦ true | some m ↦ validate_title_metadata (some m) ]

unfoldable pub validate_get_library_response : Option (List (Option LibraryItem)) → Bool
validate_get_library_response m = present_and (λ items. every library_item items) m
