-- ===== src/Http/Headers.antt =====
-- The headers of the client of src/utils/actix_client.rs.
use chimes_utils.Base.{◌≡◌, refl, Bool, true, Option, none, some, if◌then◌else◌}
use chimes_utils.Base.Text.{Text}
use chimes_utils.Http.{
  HeaderCrate, CharsetCrate, HttpCrate, ChimesClient, put_valid, put_header, insert_header,
}

-- An insertion is found under its name, and no other name is disturbed.
pub record IsHeaderMap (header : HeaderCrate) (same : header.HeaderName → header.HeaderName → Bool)
    : Type 0 where
  pub same_refl : (n : header.HeaderName) → same n n ≡ true
  pub get-insert :
      (n m : header.HeaderName) (v : header.HeaderValue) (h : header.HeaderMap)
      → header.get m (header.insert n v h) ≡ (if same n m then some v else header.get m h)

module _ (header : HeaderCrate) (same : header.HeaderName → header.HeaderName → Bool) where
  -- The value under the name `m`, where `n` was set to `v` and `old` was there.
  abbrev pub looked_up :
      Option header.HeaderName
      → Option header.HeaderValue
      → header.HeaderName
      → Option header.HeaderValue
      → Option header.HeaderValue
  looked_up (some n) (some v) m old = if same n m then some v else old
  looked_up _ _ m old = old

module _ (header : HeaderCrate) (codec : CharsetCrate) (http : HttpCrate header codec)
    (same : header.HeaderName → header.HeaderName → Bool) (laws : IsHeaderMap header same) where
  put_valid-get :
      (n : Option header.HeaderName) (v : Option header.HeaderValue) (m : header.HeaderName)
      (c : ChimesClient header codec http)
      → header.get m (put_valid header codec http n v c).headers
        ≡ looked_up header same n v m (header.get m c.headers)
  unfolding put_valid
  put_valid-get none v m c = refl
  put_valid-get (some n) none m c = refl
  put_valid-get (some n) (some v) m c = laws.get-insert n m v c.headers

  -- Let the header map find what is inserted under a name, and under no other name. After
  -- `put_header` the header that `key` names in any spelling has the new value, if `key` is a
  -- header's name and the value can be written; every other header, and otherwise every header,
  -- has what it had. `insert_header` does the same.
  pub put_header-get :
      (key value : Text) (m : header.HeaderName) (c : ChimesClient header codec http)
      → (header.get m (put_header header codec http key value c).headers
          ≡ looked_up header same
              (header.from_lowercase (header.to_lowercase key))
              (header.from_str value)
              m
              (header.get m c.headers))
        × (insert_header header codec http key value c ≡ put_header header codec http key value c)
  unfolding put_header insert_header
  put_header-get key value m c = (
    put_valid-get (header.from_lowercase (header.to_lowercase key)) (header.from_str value) m c,
    refl,
  )
