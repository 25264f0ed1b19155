-- ===== src/Mitre/Table.antt =====
-- The tables of intelligence/mitre.py.
use ids_bachelor_thesis.Prelude.{String, Option, none, some, List, [], ◌∷◌}
use ids_bachelor_thesis.Dict.{Dict}

pub record Technique : Type 0 where
  pub technique : String
  pub tactic : String
  pub name : String

abbrev pub tactics : List String
tactics =
    "Reconnaissance" ∷ "Resource Development" ∷ "Initial Access" ∷ "Execution" ∷ "Persistence"
    ∷ "Privilege Escalation" ∷ "Defense Evasion" ∷ "Credential Access" ∷ "Discovery"
    ∷ "Lateral Movement" ∷ "Collection" ∷ "Command and Control" ∷ "Exfiltration" ∷ "Impact" ∷ []

abbrev t1190 : Technique
t1190 = record {
  technique = "T1190";
  tactic = "Initial Access";
  name = "Exploit Public-Facing Application";
}

abbrev t1203 : Technique
t1203 = record {
  technique = "T1203";
  tactic = "Execution";
  name = "Exploitation for Client Execution";
}

abbrev t1059 : Technique
t1059 = record {
  technique = "T1059";
  tactic = "Execution";
  name = "Command and Scripting Interpreter";
}

abbrev t1059_007 : Technique
t1059_007 = record { technique = "T1059.007"; tactic = "Execution"; name = "JavaScript/JScript" }

abbrev t1083 : Technique
t1083 = record { technique = "T1083"; tactic = "Discovery"; name = "File and Directory Discovery" }

abbrev t1046 : Technique
t1046 = record { technique = "T1046"; tactic = "Discovery"; name = "Network Service Discovery" }

abbrev t1566 : Technique
t1566 = record { technique = "T1566"; tactic = "Initial Access"; name = "Phishing" }

abbrev t1552 : Technique
t1552 = record { technique = "T1552"; tactic = "Credential Access"; name = "Unsecured Credentials" }

abbrev t1552_005 : Technique
t1552_005 = record {
  technique = "T1552.005";
  tactic = "Credential Access";
  name = "Cloud Instance Metadata API";
}

abbrev t1105 : Technique
t1105 = record {
  technique = "T1105";
  tactic = "Command and Control";
  name = "Ingress Tool Transfer";
}

abbrev t1496 : Technique
t1496 = record { technique = "T1496"; tactic = "Impact"; name = "Resource Hijacking" }

abbrev t1499 : Technique
t1499 = record { technique = "T1499"; tactic = "Impact"; name = "Endpoint Denial of Service" }

abbrev t1498 : Technique
t1498 = record { technique = "T1498"; tactic = "Impact"; name = "Network Denial of Service" }

abbrev t1071_004 : Technique
t1071_004 = record { technique = "T1071.004"; tactic = "Command and Control"; name = "DNS" }

abbrev t1071 : Technique
t1071 = record {
  technique = "T1071";
  tactic = "Command and Control";
  name = "Application Layer Protocol";
}

abbrev pub reason_to_technique : Dict String (Option Technique)
reason_to_technique =
    ("http_sqli", some t1190)
    ∷ ("payload_sqli", some t1190)
    ∷ ("http_nosqli", some t1190)
    ∷ ("http_ldap_injection", some t1190)
    ∷ ("http_xpath_injection", some t1190)
    ∷ ("http_ssti", some t1190)
    ∷ ("http_jndi_injection", some t1190)
    ∷ ("http_file_inclusion", some t1190)
    ∷ ("http_ssrf", some t1190)
    ∷ ("http_deserialization", some t1190)
    ∷ ("http_prototype_pollution", some t1190)
    ∷ ("http_xxe", some t1190)
    ∷ ("http_open_redirect", some t1190)
    ∷ ("http_crlf_injection", some t1190)
    ∷ ("http_header_injection", some t1190)
    ∷ ("http_jwt_abuse", some t1190)
    ∷ ("http_csv_injection", some t1203)
    ∷ ("http_command_injection", some t1059)
    ∷ ("payload_command_injection", some t1059)
    ∷ ("http_code_injection", some t1059)
    ∷ ("http_xss", some t1059_007)
    ∷ ("payload_xss", some t1059_007)
    ∷ ("http_binary_exploit", some t1203)
    ∷ ("http_path_traversal", some t1083)
    ∷ ("http_source_disclosure", some t1083)
    ∷ ("http_enumeration", some t1046)
    ∷ ("http_scanning", some t1046)
    ∷ ("http_graphql_injection", some t1046)
    ∷ ("http_phishing_indicators", some t1566)
    ∷ ("http_credential_leak", some t1552)
    ∷ ("http_cloud_metadata", some t1552_005)
    ∷ ("http_malware_indicators", some t1105)
    ∷ ("http_cryptomining", some t1496)
    ∷ ("http_xml_bomb", some t1499)
    ∷ ("port_scan", some t1046)
    ∷ ("flood", some t1498)
    ∷ ("dns_tunnel_suspected", some t1071_004)
    ∷ ("dns_high_entropy_qname", some t1071_004)
    ∷ ("dns_long_qname", some t1071_004)
    ∷ ("dns_many_unique_queries", some t1071_004)
    ∷ ("dns_subdomain_churn", some t1071_004)
    ∷ ("dns_txt_burst", some t1071_004)
    ∷ ("reputation_ip_malicious", some t1071)
    ∷ ("reputation_ip_suspicious", some t1071)
    ∷ ("reputation_url_malicious", some t1071)
    ∷ ("reputation_url_suspicious", some t1071)
    ∷ ("zeek_port_scan", some t1046)
    ∷ ("zeek_syn_scan_pattern", some t1046)
    ∷ ("zeek_flag_dangerous", some t1046)
    ∷ ("zeek_flag_suspicious", some t1046)
    ∷ ("ml_skipped_no_features", none)
    ∷ []
