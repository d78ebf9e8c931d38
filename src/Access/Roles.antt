-- ===== src/Access/Roles.antt =====
-- Roles and what they may do: `MVP_PERMISSION_MATRIX` and the tests on it, of
-- packages/shared/src/index.ts.
use company_erp.Base.{Bool, true, false, List, [], ◌∷◌, ◌++◌, any, if◌then◌else◌}

-- `MvpRoleCode`
pub data Role : Type 0 where
  admin hr procurement warehouse project_site marketing operations external_project_site viewer :
      Role

-- `PermissionAreaCode`
pub data Area : Type 0 where
  master_data employees departments user_accounts role_assignment procurement inventory
        inventory_quantity contracts certificates business_projects project_sites
        project_site_kitchen_equipment project_usage project_usage_request
        market_operations_handoffs audit_logs attachments dashboard system_settings :
      Area

-- `MvpPermissionLevel`
pub data Level : Type 0 where
  none read manage : Level

pub record Rule : Type 0 where
  pub read : List Role
  pub manage : List Role

abbrev all_roles : List Role
all_roles =
    admin ∷ hr ∷ Role.procurement ∷ warehouse ∷ project_site ∷ marketing ∷ operations ∷ viewer ∷ []

-- `MVP_PERMISSION_MATRIX`
unfoldable pub permission_matrix : Area → Rule
permission_matrix master_data = record {
  read = all_roles;
  manage = admin ∷ Role.procurement ∷ warehouse ∷ [];
}
permission_matrix employees = record {
  read = admin ∷ hr ∷ operations ∷ viewer ∷ [];
  manage = admin ∷ hr ∷ [];
}
permission_matrix departments = record { read = all_roles; manage = admin ∷ hr ∷ [] }
permission_matrix user_accounts = record { read = admin ∷ hr ∷ []; manage = admin ∷ [] }
permission_matrix role_assignment = record { read = admin ∷ []; manage = admin ∷ [] }
permission_matrix Area.procurement = record {
  read =
      admin ∷ hr ∷ Role.procurement ∷ warehouse ∷ project_site ∷ marketing ∷ operations ∷ viewer
      ∷ [];
  manage = admin ∷ Role.procurement ∷ [];
}
permission_matrix inventory = record {
  read = admin ∷ hr ∷ Role.procurement ∷ warehouse ∷ project_site ∷ viewer ∷ [];
  manage = admin ∷ warehouse ∷ [];
}
permission_matrix inventory_quantity = record {
  read = admin ∷ hr ∷ Role.procurement ∷ warehouse ∷ project_site ∷ operations ∷ viewer ∷ [];
  manage = admin ∷ warehouse ∷ [];
}
permission_matrix contracts = record {
  read = admin ∷ hr ∷ Role.procurement ∷ project_site ∷ marketing ∷ operations ∷ viewer ∷ [];
  manage = admin ∷ Role.procurement ∷ [];
}
permission_matrix certificates = record {
  read =
      admin ∷ hr ∷ Role.procurement ∷ project_site ∷ operations ∷ external_project_site ∷ viewer
      ∷ [];
  manage = admin ∷ hr ∷ external_project_site ∷ [];
}
permission_matrix business_projects = record {
  read = admin ∷ hr ∷ Role.procurement ∷ marketing ∷ operations ∷ viewer ∷ [];
  manage = admin ∷ Role.procurement ∷ [];
}
permission_matrix project_sites = record { read = all_roles; manage = admin ∷ hr ∷ [] }
permission_matrix project_site_kitchen_equipment = record {
  read =
      admin ∷ hr ∷ Role.procurement ∷ warehouse ∷ project_site ∷ operations ∷ external_project_site
      ∷ viewer ∷ [];
  manage = admin ∷ hr ∷ operations ∷ external_project_site ∷ [];
}
permission_matrix project_usage = record {
  read =
      admin ∷ hr ∷ Role.procurement ∷ warehouse ∷ project_site ∷ operations ∷ external_project_site
      ∷ viewer ∷ [];
  manage = admin ∷ project_site ∷ [];
}
permission_matrix project_usage_request = record {
  read =
      admin ∷ hr ∷ Role.procurement ∷ warehouse ∷ project_site ∷ operations ∷ external_project_site
      ∷ viewer ∷ [];
  manage = admin ∷ operations ∷ project_site ∷ external_project_site ∷ [];
}
permission_matrix market_operations_handoffs = record {
  read = admin ∷ marketing ∷ operations ∷ [];
  manage = admin ∷ marketing ∷ operations ∷ [];
}
permission_matrix audit_logs = record { read = admin ∷ []; manage = admin ∷ [] }
permission_matrix attachments = record {
  read = admin ∷ hr ∷ Role.procurement ∷ operations ∷ external_project_site ∷ [];
  manage = admin ∷ hr ∷ [];
}
permission_matrix dashboard = record {
  read = all_roles ++ (external_project_site ∷ []);
  manage = [];
}
permission_matrix system_settings = record { read = admin ∷ []; manage = admin ∷ [] }

unfoldable pub same_role : Role → Role → Bool
same_role admin admin = true
same_role hr hr = true
same_role Role.procurement Role.procurement = true
same_role warehouse warehouse = true
same_role project_site project_site = true
same_role marketing marketing = true
same_role operations operations = true
same_role external_project_site external_project_site = true
same_role viewer viewer = true
same_role _ _ = false

-- `roles.some((role) => listed.includes(role))`
unfoldable pub any_role : List Role → List Role → Bool
unfolding same_role
any_role roles listed = any (λ role. any (same_role role) listed) roles

-- `getPermissionLevel`
unfoldable pub permission_level : List Role → Area → Level
unfolding permission_matrix any_role
permission_level roles area =
    if any_role roles (permission_matrix area).manage
    then Level.manage
    else if any_role roles (permission_matrix area).read
    then Level.read
    else Level.none

unfoldable pub can_read : List Role → Area → Bool
unfolding permission_level
can_read roles area = elim (permission_level roles area) [ Level.none ↦ false | _ ↦ true ]

unfoldable pub can_manage : List Role → Area → Bool
unfolding permission_level
can_manage roles area = elim (permission_level roles area) [ Level.manage ↦ true | _ ↦ false ]
