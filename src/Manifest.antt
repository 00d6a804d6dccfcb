-- ===== src/Manifest.antt =====
-- internal/manifest/manifest.go: the document that a plugin serves. Its raw JSON members are the
-- bytes that arrived.
pub mod TenantSchema
use apicorex.Base.{Bool, List}
use apicorex.Base.Int.{ℤ}
use apicorex.Text.{Bytes}
use apicorex.Map.{Map}

pub record Route : Type 0 where
  pub method : Bytes
  pub path : Bytes
  pub is_public : Bool
  pub permission : Bytes
  pub summary : Bytes
  pub tags : List Bytes

pub record Migration : Type 0 where
  pub version : Bytes
  pub name : Bytes
  pub up_sql : Bytes
  pub down_sql : Bytes

pub record DomainSurface : Type 0 where
  pub surface : Bytes
  pub path_prefix : Bytes
  pub session_scoped : Bool

pub record NavItem : Type 0 where
  pub key : Bytes
  pub labels : Map Bytes
  pub icon : Bytes
  pub href : Bytes
  pub permission : Bytes
  pub feature : Bytes
  pub group : Bytes
  pub sort : ℤ
  pub group_labels : Map Bytes
  pub group_sort : ℤ

pub record Manifest : Type 0 where
  pub name : Bytes
  pub version : Bytes
  pub description : Bytes
  pub plugin_type : Bytes
  pub routes : List Route
  pub public_paths : List Bytes
  pub domain_surfaces : List DomainSurface
  pub migrations : List Migration
  pub openapi_spec : Bytes
  pub tenant_schema : Bytes
  pub nav : List NavItem
  pub permissions : Bytes
  pub roles : Bytes
  pub features : Bytes
