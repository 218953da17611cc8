-- ===== src/Types.antt =====
-- frontend/src/types.ts: the records that the frontend exchanges with the API. An optional field
-- and a field that may be `null` are both `Option`; one that may be
-- absent or `null` is an `Option` of an `Option` where the two differ in a request's body. The responses are not checked at run time, so a
-- union of literals that only the server writes is a `String`.
use ansible_aam.Prelude.{ℕ, String, Bool, Option, List}
use ansible_aam.Prelude.Dict.{Dict}
use ansible_aam.Prelude.Text.Numbers.{Number}
use ansible_aam.Value.{Value}

pub data EnvironmentAuthMode : Type 0 where
  oauth2 service_account header_passthrough : EnvironmentAuthMode

pub data DeploymentType : Type 0 where
  podman openshift aws gcp azure other : DeploymentType

-- The texts that the two stand for.
abbrev pub auth_mode_text : EnvironmentAuthMode → String
auth_mode_text oauth2 = "oauth2"
auth_mode_text service_account = "service_account"
auth_mode_text header_passthrough = "header_passthrough"

pub data RemoteActionName : Type 0 where
  launch_job_template launch_workflow_job_template set_activation_state sync_project sync_repository
        cancel_job cancel_workflow_job cancel_execution decide_approval patch_controller_settings
        ensure_organization ensure_execution_environment ensure_instance_group :
      RemoteActionName

pub record ServiceSnapshot : Type 0 where
  pub service : String
  pub health : String
  pub summary : Dict Value
  pub collected_at : String

pub record Resource : Type 0 where
  pub id : String
  pub service : String
  pub resource_type : String
  pub external_id : String
  pub name : String
  pub status : String
  pub namespace : Option String
  pub url : Option String
  pub metadata_json : Dict Value
  pub last_seen_at : String

pub record EnvironmentSummary : Type 0 where
  pub id : String
  pub name : String
  pub slug : String
  pub description : String
  pub owner : String
  pub tags : List String
  pub groupings : List String
  pub kind : Option String
  pub deployment_type : DeploymentType
  pub infrastructure : Dict Value
  pub status : String
  pub is_managed : Option Bool
  pub sync_interval_minutes : Number
  pub platform_version : Option String
  pub last_synced_at : Option String
  pub last_sync_error : Option String
  pub summary : Dict Value

pub record EnvironmentDetail : Type 0 where
  pub environment : EnvironmentSummary
  pub open environment use *
  pub labels : Dict Value
  pub platform_url : Option String
  pub gateway_url : Option String
  pub controller_url : Option String
  pub eda_url : Option String
  pub hub_url : Option String
  pub orchestrator_url : Option String
  pub auth_mode : EnvironmentAuthMode
  pub client_id : Option String
  pub orchestrator_client_id : Option String
  pub verify_ssl : Bool
  pub capabilities : Dict Value
  pub service_paths : Dict Value
  pub snapshots : List ServiceSnapshot
  pub resources : List Resource

pub record EnvironmentMutationPayload : Type 0 where
  pub name : String
  pub slug : String
  pub description : String
  pub owner : String
  pub tags : List String
  pub groupings : List String
  pub labels : Dict Value
  pub kind : Option String
  pub deployment_type : DeploymentType
  pub infrastructure : Dict Value
  pub platform_url : Option String
  pub gateway_url : Option String
  pub controller_url : Option String
  pub eda_url : Option String
  pub hub_url : Option String
  pub orchestrator_url : Option String
  pub auth_mode : EnvironmentAuthMode
  pub client_id : Option String
  pub client_secret : Option (Option String)
  pub access_token : Option (Option String)
  pub orchestrator_client_id : Option (Option String)
  pub orchestrator_client_secret : Option (Option String)
  pub orchestrator_access_token : Option (Option String)
  pub verify_ssl : Bool
  pub sync_interval_minutes : Number
  pub is_managed : Option Bool
  pub capabilities : Dict Value
  pub service_paths : Dict Value

pub record MonitoringEnvironment : Type 0 where
  pub environment : EnvironmentSummary
  pub open environment use *
  pub auth_mode : EnvironmentAuthMode
  pub verify_ssl : Bool
  pub capabilities : Dict Value
  pub snapshots : List ServiceSnapshot

pub record Policy : Type 0 where
  pub id : String
  pub name : String
  pub description : String
  pub severity : String
  pub enabled : Bool
  pub scope : Dict Value
  pub rule : Dict Value

pub record PolicyCreatePayload : Type 0 where
  pub name : String
  pub description : String
  pub severity : String
  pub enabled : Bool
  pub scope : Dict Value
  pub rule : Dict Value
  pub push_to_fleet : Bool

pub record PolicyCheckResult : Type 0 where
  pub environment_id : String
  pub environment_name : String
  pub compliance : String
  pub message : String

pub record PolicyPushResult : Type 0 where
  pub policy_id : String
  pub evaluated : Number
  pub compliant : Number
  pub noncompliant : Number
  pub unknown : Number
  pub skipped : Number
  pub environments : Number
  pub checks : Option (List PolicyCheckResult)

pub record PolicyRemediateResult : Type 0 where
  pub pushed : PolicyPushResult
  pub open pushed use *
  pub applied : Number
  pub failed : Number
  pub details : List (Dict String)

pub record ConfigDriftItem : Type 0 where
  pub kind : String
  pub name : String
  pub values : Dict Value

pub record HealthSample : Type 0 where
  pub environment_id : String
  pub environment_name : String
  pub status : String
  pub health_score : Number
  pub collected_at : String

pub record FleetAlert : Type 0 where
  pub id : String
  pub environment_id : String
  pub environment_name : String
  pub severity : String
  pub message : String
  pub created_at : String
  pub acknowledged_at : Option String
  pub resolved_at : Option String

pub record OrchestratorApproval : Type 0 where
  pub id : String
  pub name : String
  pub status : String
  pub environment_id : String
  pub environment_name : String
  pub message : String
  pub workflow_name : Option String

pub record CurrentUser : Type 0 where
  pub id : Option String
  pub username : String
  pub email : Option String
  pub roles : List String
  pub groups : List String
  pub system_roles : Option (List String)
  pub environment_roles : Option (Dict (List String))
  pub visible_environment_ids : Option (List String)
  pub is_builtin : Option Bool
  pub auth_source : Option String

pub record PolicyResult : Type 0 where
  pub id : String
  pub environment_id : String
  pub environment_name : Option String
  pub policy_id : String
  pub compliance : String
  pub message : String
  pub details : Dict Value
  pub evaluated_at : String

pub record SearchResult : Type 0 where
  pub id : String
  pub environment_id : String
  pub environment_name : String
  pub service : String
  pub resource_type : String
  pub name : String
  pub status : String
  pub url : Option String
  pub metadata : Dict Value

pub record TopologyNode : Type 0 where
  pub id : String
  pub label : String
  pub kind : String
  pub status : String
  pub metadata : Dict Value

pub record TopologyEdge : Type 0 where
  pub source : String
  pub target : String
  pub relationship : String

pub record SyncRequestResponse : Type 0 where
  pub job_id : String
  pub status : String

pub record HubPreferences : Type 0 where
  pub default_sync_interval_minutes : Number
  pub session_ttl_minutes : Number
  pub search_result_limit : Number
  pub request_timeout_seconds : Number
  pub scheduler_interval_seconds : Number
  pub local_login_enabled : Bool
  pub local_login_locked : Bool

pub record ActivityEvent : Type 0 where
  pub id : String
  pub kind : String
  pub environment_id : String
  pub environment_name : String
  pub service : String
  pub operation : String
  pub target : String
  pub status : String
  pub requested_by : String
  pub summary : String
  pub created_at : String
  pub started_at : Option String
  pub finished_at : Option String
  pub details : Dict Value

pub record RemoteActionRequest : Type 0 where
  pub environment_id : String
  pub action : RemoteActionName
  pub target_id : String
  pub target_name : Option String
  pub payload : Option (Dict Value)
  pub path_override : Option String

pub record ControllerJob : Type 0 where
  pub id : String
  pub name : String
  pub status : String
  pub job_type : Option String
  pub started : Option String
  pub finished : Option String
  pub elapsed : Option Number
  pub environment_id : String
  pub environment_name : String
  pub deployment_type : Option String
  pub url : Option String
  pub source : Option String
  pub metadata : Dict Value

-- An estate's configuration, read live.
pub record BaselineEnvironment : Type 0 where
  pub id : String
  pub name : String
  pub settings : Dict Value
  pub organizations : List String
  pub execution_environments : List Value
  pub instance_groups : List String

pub record ConfigBaseline : Type 0 where
  pub environments : List BaselineEnvironment
  pub drift : List ConfigDriftItem

pub record TopologyResponse : Type 0 where
  pub nodes : List TopologyNode
  pub edges : List TopologyEdge

pub record AuthProvider : Type 0 where
  pub id : String
  pub name : String
  pub provider_type : String
  pub enabled : Bool

pub record IdentityProviderWrite : Type 0 where
  pub name : String
  pub provider_type : String
  pub enabled : Bool
  pub allow_all_authenticated : Bool
  pub config : Dict Value
  pub secret : Option String

pub record EnvironmentJobStats : Type 0 where
  pub environment_id : String
  pub environment_name : String
  pub deployment_type : String
  pub status : String
  pub controller_configured : Bool
  pub orchestrator_configured : Option Bool
  pub running : Number
  pub pending : Number
  pub waiting : Number
  pub failed : Number
  pub successful : Number
  pub canceled : Number
  pub error : Number
  pub total : Number
  pub error_message : Option String

pub record FleetJobStats : Type 0 where
  pub environment_count : Number
  pub running : Number
  pub pending : Number
  pub waiting : Number
  pub failed : Number
  pub successful : Number
  pub canceled : Number
  pub error : Number
  pub total : Number
  pub by_environment : List EnvironmentJobStats

pub record FleetJobsResponse : Type 0 where
  pub jobs : List ControllerJob
  pub stats : FleetJobStats

-- The parts of `AccessDirectory`.
pub record AccessUser : Type 0 where
  pub id : String
  pub username : String
  pub email : Option String
  pub is_builtin : Bool
  pub is_active : Bool
  pub source : String
  pub groups : List String

pub record AccessGroup : Type 0 where
  pub id : String
  pub name : String
  pub description : String
  pub is_builtin : Bool

pub record Assignment : Type 0 where
  pub id : String
  pub role : String
  pub scope : String
  pub environment_id : String
  pub principal_type : String
  pub principal_id : String

pub record DirectoryProvider : Type 0 where
  pub provider : AuthProvider
  pub open provider use *
  pub allow_all_authenticated : Bool
  pub config : Dict Value
  pub has_secret : Bool

pub record AccessDirectory : Type 0 where
  pub users : List AccessUser
  pub groups : List AccessGroup
  pub assignments : List Assignment
  pub providers : List DirectoryProvider
  pub system_roles : List String
  pub environment_roles : List String

pub record DashboardResponse : Type 0 where
  pub environment_count : ℕ
  pub healthy_count : ℕ
  pub warning_count : ℕ
  pub critical_count : ℕ
  pub compliance : Dict ℕ
  pub services : Dict (Dict ℕ)
  pub resource_breakdown : Dict ℕ
  pub integration_breakdown : Dict ℕ
  pub environment_summaries : List EnvironmentSummary
