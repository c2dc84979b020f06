-- ===== src/Kubernetes/Table.antt =====
-- salt/_utils/kubernetes_utils.py: the tables `KNOWN_STD_KINDS` and `_CUSTOM_KINDS`.
use metalk8s.Prelude.{String, Option, none, some, List, [], ◌∷◌, ◌++◌}

-- `method_names` of a kind
pub data MethodNames : Type 0 where
  one_method : String → MethodNames
  methods : List String → MethodNames

-- An entry of the table: its key, and the arguments of its `KindInfo`. A class is its name.
pub record StdKind : Type 0 where
  pub api_version : String
  pub kind : String
  pub model : String
  pub api_cls : String
  pub name : String
  pub method_names : Option MethodNames

abbrev pub std_kind : String → String → String → String → String → StdKind
std_kind api_version kind model api_cls name = record {
  api_version = api_version;
  kind = kind;
  model = model;
  api_cls = api_cls;
  name = name;
  method_names = none;
}

abbrev core_v1_kinds : List StdKind
core_v1_kinds =
    std_kind "v1" "ConfigMap" "V1ConfigMap" "CoreV1Api" "namespaced_config_map"
    ∷ std_kind "v1" "Endpoints" "V1Endpoints" "CoreV1Api" "namespaced_endpoints"
    ∷ std_kind "v1" "Namespace" "V1Namespace" "CoreV1Api" "namespace"
    ∷ std_kind "v1" "Node" "V1Node" "CoreV1Api" "node"
    ∷ std_kind "v1" "Pod" "V1Pod" "CoreV1Api" "namespaced_pod"
    ∷ record {
      api_version = "v1";
      kind = "PodEviction";
      model = "V1beta1Eviction";
      api_cls = "CoreV1Api";
      name = "namespaced_pod_eviction";
      method_names = some (one_method "create");
    }
    ∷ std_kind "v1" "Secret" "V1Secret" "CoreV1Api" "namespaced_secret"
    ∷ std_kind "v1" "Service" "V1Service" "CoreV1Api" "namespaced_service"
    ∷ std_kind "v1" "ServiceAccount" "V1ServiceAccount" "CoreV1Api" "namespaced_service_account"
    ∷ std_kind "v1" "ReplicationController" "V1ReplicationController" "CoreV1Api"
        "namespaced_replication_controller"
    ∷ []

abbrev apps_v1_kinds : List StdKind
apps_v1_kinds =
    std_kind "apps/v1" "DaemonSet" "V1DaemonSet" "AppsV1Api" "namespaced_daemon_set"
    ∷ std_kind "apps/v1" "Deployment" "V1Deployment" "AppsV1Api" "namespaced_deployment"
    ∷ std_kind "apps/v1" "ReplicaSet" "V1ReplicaSet" "AppsV1Api" "namespaced_replica_set"
    ∷ std_kind "apps/v1" "StatefulSet" "V1StatefulSet" "AppsV1Api" "namespaced_stateful_set"
    ∷ []

abbrev apps_v1beta2_kinds : List StdKind
apps_v1beta2_kinds =
    std_kind "apps/v1beta2" "DaemonSet" "V1beta2DaemonSet" "AppsV1beta2Api" "namespaced_daemon_set"
    ∷ std_kind "apps/v1beta2" "Deployment" "V1beta2Deployment" "AppsV1beta2Api"
        "namespaced_deployment"
    ∷ []

abbrev extensions_v1beta1_kinds : List StdKind
extensions_v1beta1_kinds =
    std_kind "extensions/v1beta1" "DaemonSet" "V1beta1DaemonSet" "ExtensionsV1beta1Api"
      "namespaced_daemon_set"
    ∷ std_kind "extensions/v1beta1" "Deployment" "ExtensionsV1beta1Deployment"
        "ExtensionsV1beta1Api" "namespaced_deployment"
    ∷ std_kind "extensions/v1beta1" "Ingress" "ExtensionsV1beta1Ingress" "ExtensionsV1beta1Api"
        "namespaced_ingress"
    ∷ std_kind "extensions/v1beta1" "PodSecurityPolicy" "ExtensionsV1beta1PodSecurityPolicy"
        "ExtensionsV1beta1Api" "pod_security_policy"
    ∷ std_kind "extensions/v1beta1" "ReplicaSet" "V1beta1ReplicaSet" "ExtensionsV1beta1Api"
        "namespaced_replica_set"
    ∷ []

abbrev apiextensions_v1beta1_kinds : List StdKind
apiextensions_v1beta1_kinds =
    std_kind "apiextensions.k8s.io/v1beta1" "CustomResourceDefinition"
      "V1beta1CustomResourceDefinition" "ApiextensionsV1beta1Api" "custom_resource_definition"
    ∷ []

abbrev apiregistration_v1_kinds : List StdKind
apiregistration_v1_kinds =
    std_kind "apiregistration.k8s.io/v1" "APIService" "V1APIService" "ApiregistrationV1Api"
      "api_service"
    ∷ []

abbrev apiregistration_v1beta1_kinds : List StdKind
apiregistration_v1beta1_kinds =
    std_kind "apiregistration.k8s.io/v1beta1" "APIService" "V1beta1APIService"
      "ApiregistrationV1beta1Api" "api_service"
    ∷ []

abbrev batch_v1beta1_kinds : List StdKind
batch_v1beta1_kinds =
    std_kind "batch/v1beta1" "CronJob" "V1beta1CronJob" "BatchV1beta1Api" "namespaced_cron_job" ∷ []

abbrev networking_v1beta1_kinds : List StdKind
networking_v1beta1_kinds =
    std_kind "networking.k8s.io/v1beta1" "Ingress" "NetworkingV1beta1Ingress" "NetworkingV1beta1Api"
      "namespaced_ingress"
    ∷ []

abbrev policy_v1beta1_kinds : List StdKind
policy_v1beta1_kinds =
    std_kind "policy/v1beta1" "PodSecurityPolicy" "PolicyV1beta1PodSecurityPolicy"
      "PolicyV1beta1Api" "pod_security_policy"
    ∷ []

abbrev rbac_v1_kinds : List StdKind
rbac_v1_kinds =
    std_kind "rbac.authorization.k8s.io/v1" "ClusterRole" "V1ClusterRole" "RbacAuthorizationV1Api"
      "cluster_role"
    ∷ std_kind "rbac.authorization.k8s.io/v1" "ClusterRoleBinding" "V1ClusterRoleBinding"
        "RbacAuthorizationV1Api" "cluster_role_binding"
    ∷ std_kind "rbac.authorization.k8s.io/v1" "Role" "V1Role" "RbacAuthorizationV1Api"
        "namespaced_role"
    ∷ std_kind "rbac.authorization.k8s.io/v1" "RoleBinding" "V1RoleBinding" "RbacAuthorizationV1Api"
        "namespaced_role_binding"
    ∷ []

abbrev rbac_v1beta1_kinds : List StdKind
rbac_v1beta1_kinds =
    std_kind "rbac.authorization.k8s.io/v1beta1" "ClusterRole" "V1beta1ClusterRole"
      "RbacAuthorizationV1beta1Api" "cluster_role"
    ∷ std_kind "rbac.authorization.k8s.io/v1beta1" "ClusterRoleBinding" "V1beta1ClusterRoleBinding"
        "RbacAuthorizationV1beta1Api" "cluster_role_binding"
    ∷ std_kind "rbac.authorization.k8s.io/v1beta1" "Role" "V1beta1Role"
        "RbacAuthorizationV1beta1Api" "namespaced_role"
    ∷ std_kind "rbac.authorization.k8s.io/v1beta1" "RoleBinding" "V1beta1RoleBinding"
        "RbacAuthorizationV1beta1Api" "namespaced_role_binding"
    ∷ []

abbrev storage_v1_kinds : List StdKind
storage_v1_kinds =
    std_kind "storage.k8s.io/v1" "StorageClass" "V1StorageClass" "StorageV1Api" "storage_class" ∷ []

abbrev pub known_std_kinds : List StdKind
known_std_kinds =
    core_v1_kinds ++ apps_v1_kinds ++ apps_v1beta2_kinds ++ extensions_v1beta1_kinds
    ++ apiextensions_v1beta1_kinds ++ apiregistration_v1_kinds ++ apiregistration_v1beta1_kinds
    ++ batch_v1beta1_kinds ++ networking_v1beta1_kinds ++ policy_v1beta1_kinds ++ rbac_v1_kinds
    ++ rbac_v1beta1_kinds ++ storage_v1_kinds

-- An entry of `_CUSTOM_KINDS`, the arguments of its `CRKindInfo`.
pub record CustomKind : Type 0 where
  pub api_version : String
  pub kind : String
  pub scope : String
  pub plural : String

abbrev custom_kind : String → String → String → String → CustomKind
custom_kind api_version kind scope plural = record {
  api_version = api_version;
  kind = kind;
  scope = scope;
  plural = plural;
}

abbrev pub custom_kinds : List CustomKind
custom_kinds =
    custom_kind "monitoring.coreos.com/v1" "Alertmanager" "namespaced" "alertmanagers"
    ∷ custom_kind "monitoring.coreos.com/v1" "Prometheus" "namespaced" "prometheuses"
    ∷ custom_kind "monitoring.coreos.com/v1" "PrometheusRule" "namespaced" "prometheusrules"
    ∷ custom_kind "monitoring.coreos.com/v1" "ServiceMonitor" "namespaced" "servicemonitors"
    ∷ custom_kind "storage.metalk8s.scality.com/v1alpha1" "Volume" "cluster" "volumes"
    ∷ []
