-- ===== src/Service.antt =====
-- crates/cbna-core/src/transport.rs: the names of services by port.
use custom_built_network_ana.Base.{
  ℕ, String, Bool, not, ◌&&◌, ◌||◌, Option, none, some, ◌==◌, if◌then◌else◌,
}

unfoldable pub service_name : ℕ → Bool → Option String
service_name port tcp =
    if (port == 20 && tcp) || (port == 21 && tcp)
    then some "ftp"
    else if port == 22 && tcp
    then some "ssh"
    else if port == 23 && tcp
    then some "telnet"
    else if (port == 25 && tcp) || (port == 587 && tcp)
    then some "smtp"
    else if port == 53
    then some "dns"
    else if (port == 67 && not tcp) || (port == 68 && not tcp)
    then some "dhcp"
    else if port == 69 && not tcp
    then some "tftp"
    else if (port == 80 && tcp) || (port == 8080 && tcp) || (port == 8000 && tcp)
    then some "http"
    else if port == 88
    then some "kerberos"
    else if port == 110 && tcp
    then some "pop3"
    else if port == 123 && not tcp
    then some "ntp"
    else if port == 135 && tcp
    then some "msrpc"
    else if (port == 137 && not tcp) || (port == 138 && not tcp)
    then some "netbios"
    else if (port == 139 && tcp) || (port == 445 && tcp)
    then some "smb"
    else if port == 143 && tcp
    then some "imap"
    else if (port == 161 && not tcp) || (port == 162 && not tcp)
    then some "snmp"
    else if port == 389
    then some "ldap"
    else if (port == 443 && tcp) || (port == 8443 && tcp)
    then some "https"
    else if port == 443 && not tcp
    then some "quic"
    else if port == 514 && not tcp
    then some "syslog"
    else if port == 636 && tcp
    then some "ldaps"
    else if port == 1433 && tcp
    then some "mssql"
    else if port == 1521 && tcp
    then some "oracle"
    else if port == 3306 && tcp
    then some "mysql"
    else if port == 3389 && tcp
    then some "rdp"
    else if port == 5060 || port == 5061
    then some "sip"
    else if port == 5432 && tcp
    then some "postgres"
    else if port == 5353 && not tcp
    then some "mdns"
    else if (port == 5985 && tcp) || (port == 5986 && tcp)
    then some "winrm"
    else if port == 6379 && tcp
    then some "redis"
    else if port == 9200 && tcp
    then some "elasticsearch"
    else if port == 27017 && tcp
    then some "mongodb"
    else none
