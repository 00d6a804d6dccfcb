-- ===== src/Manifest/TenantSchema.antt =====
-- internal/manifest/tenantschema.go. The digest crypto/sha256 is a parameter, in the hexadecimal
-- form that the source takes its first eight characters of.
use apicorex.Base.{
  ℕ, ◌-◌, ◌≤◌, ◌||◌, ◌++◌, arith, leb, length, take, length-append, length-take, if◌then◌else◌,
}
use apicorex.Text.{Bytes, lit, ◌==◌, is_empty}

abbrev pub tenant_schema_shared : Bytes
tenant_schema_shared = lit "shared"

abbrev pub max_identifier : ℕ
max_identifier = 63

module _ (sha256_hex : Bytes → Bytes) where
  -- The schema's own name, and the digest of it that ends a shortened one.
  abbrev pub own_schema : Bytes → Bytes → Bytes
  own_schema base plugin = base ++ (lit "__" ++ plugin)

  abbrev pub digest_suffix : Bytes → Bytes
  digest_suffix name = lit "_" ++ take 8 (sha256_hex name)

  -- TenantSchemaFor
  unfoldable pub tenant_schema_for : Bytes → Bytes → Bytes → Bytes
  tenant_schema_for base plugin mode =
      if is_empty base || mode == tenant_schema_shared
      then base
      else (let name = own_schema base plugin in
          if leb (length name) max_identifier
          then name
          else take (max_identifier - length (digest_suffix name)) name ++ digest_suffix name)

  shorten-le :
      (name : Bytes)
      → length (take (max_identifier - length (digest_suffix name)) name ++ digest_suffix name)
        ≤ max_identifier
  shorten-le name = omega (
    arith,
    length-append (take (max_identifier - length (digest_suffix name)) name) (digest_suffix name),
    length-take (max_identifier - length (digest_suffix name)) name,
    length-take 8 (sha256_hex name),
  )

-- Postgres never has to truncate a schema name: it is at most 63 bytes if the tenant's base schema
-- is.
pub length-tenant_schema_for :
    (sha256_hex : Bytes → Bytes) (base plugin mode : Bytes)
    → length base ≤ max_identifier
    → length (tenant_schema_for sha256_hex base plugin mode) ≤ max_identifier
unfolding tenant_schema_for
length-tenant_schema_for sha256_hex base plugin mode h =
    ground (arith, shorten-le sha256_hex (own_schema sha256_hex base plugin))
