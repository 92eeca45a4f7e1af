-- ===== src/SourceCache/Table.antt =====
-- The rows of the account source cache of core/internal/sourcecache/sourcecache.go. The parts of an
-- item's key are in place of its path, with which the store keeps it together with the completion
-- markers; Paths compares the two.
use abcmovies.Base.{◌&&◌, List, [], ◌∷◌, Text, Text-discrete, ◌==◌, if◌then◌else◌, Key, Bool}
use abcmovies.ItemRegistry.Records.{CatalogueItem}

pub record ItemKey : Type 0 where
  pub provider : Text
  pub account_id : Text
  pub native_id : Text

unfoldable pub ItemKey-discrete : Discrete ItemKey
ItemKey-discrete = hlevel Text-discrete

instance abbrev pub item_key : Key ItemKey
item_key = record { dec = ItemKey-discrete }

abbrev pub key_of : Text → Text → Text → ItemKey
key_of provider account_id native_id = record {
  provider = provider;
  account_id = account_id;
  native_id = native_id;
}

-- Whether a key has the prefix of an account.
abbrev pub belongs : Text → Text → ItemKey → Bool
belongs provider account_id key = (key.provider == provider) && (key.account_id == account_id)

-- `ListItems`
unfoldable pub list_items : Text → Text → List (ItemKey × CatalogueItem) → List CatalogueItem
list_items provider account_id [] = []
list_items provider account_id ((key, item) ∷ cache) =
    let rest = list_items provider account_id cache in
    if belongs provider account_id key then item ∷ rest else rest
