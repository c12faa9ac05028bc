-- ===== src/Tui/App/Render.antt =====
-- What `App::render` of src/tui/app.cpp prints: rows of the screen with their text. Colours are left
-- out, `print_ratio` is `%.1f` of a quotient of floating point numbers, and the header line, the
-- sparkline (Tui.Sparkline) and the lines of fixed text are not repeated here.
use k_watch.Prelude.{
  ℕ, ◌+◌, ◌-◌, ◌*◌, ◌/◌, ◌%◌, Option, List, [], ◌∷◌, ◌++◌, not, ◌&&◌, leb, ltb, ◌==◌, if◌then◌else◌,
  length, take, replicate, u64, min,
}
use k_watch.Prelude.Text.{Text, codes}
use k_watch.Util.Numbers.{to_string}
use k_watch.Util.Ipv4.{format}
use k_watch.Bpf.Shared.{Event}
use k_watch.Core.Event.{format_tcp_flags}
use k_watch.Cli.Top.{ProtocolBreakdown, current_total}
use k_watch.Tui.App.{App, dashboard, threats, firewall, demos, ThreatRow, FirewallRow}

unfoldable pub get_os_from_ttl : ℕ → Text
get_os_from_ttl ttl =
    if ttl == 64
    then codes "Linux"
    else if ttl == 128
    then codes "Windows"
    else if ttl == 255
    then codes "BSD"
    else codes "?"

-- `%02lld`
abbrev pub two_digits : ℕ → Text
two_digits n = if ltb n 10 then b'0' ∷ to_string n else to_string n

unfoldable pub format_duration : ℕ → Text
format_duration total =
    two_digits (total / 3600)
    ++ (b':' ∷ two_digits (total / 60 % 60) ++ (b':' ∷ two_digits (total % 60)))

unfoldable pub format_ratio : (ℕ → ℕ → Text) → ℕ → ℕ → Text
format_ratio print_ratio syn_count ack_count =
    if ack_count == 0
    then if syn_count == 0 then codes "0.0" else codes "inf"
    else print_ratio syn_count ack_count

unfoldable pub protocol_pct : ℕ → ℕ → ℕ
protocol_pct value total = if total == 0 then 0 else u64 (value * 100) / total

-- `%-ns` and `%ns`
abbrev pub pad_right : ℕ → Text → Text
pad_right n s = s ++ replicate (n - length s) 32

abbrev pub pad_left : ℕ → Text → Text
pad_left n s = replicate (n - length s) 32 ++ s

-- `"%s%10lu (%2lu%%)"`
abbrev pub protocol_line : Text → ℕ → ℕ → Text
protocol_line name value total =
    name
    ++ (pad_left 10 (to_string value)
        ++ (codes " (" ++ (pad_left 2 (to_string (protocol_pct value total)) ++ codes "%)")))

-- rows 7 to 11 of the dashboard
unfoldable pub protocol_lines : ProtocolBreakdown → List (ℕ × Text)
unfolding current_total protocol_pct
protocol_lines b =
    let total = current_total b in
    (7, protocol_line (codes "TCP   ") b.tcp total)
    ∷ (8, protocol_line (codes "UDP   ") b.udp total)
    ∷ (9, protocol_line (codes "ICMP  ") b.icmp total)
    ∷ (10, protocol_line (codes "Other ") b.other total)
    ∷ (11, codes "Drops " ++ pad_left 10 (to_string b.dropped))
    ∷ []

unfoldable pub reverse_onto : {A : Type 0} → List A → List A → List A
reverse_onto [] acc = acc
reverse_onto (x ∷ xs) acc = reverse_onto xs (x ∷ acc)

module _ (inet_ntop : ℕ → Option Text) where
  unfoldable pub event_line : Event → Text
  unfolding format_tcp_flags
  event_line e =
      if e.protocol == 1
      then format inet_ntop e.src_ip
        ++ (codes " -> "
            ++ (format inet_ntop e.dst_ip
                ++ (codes " type="
                    ++ (to_string e.icmp_type
                        ++ (codes " code="
                            ++ (to_string e.icmp_code ++ (codes " ttl=" ++ to_string e.ttl)))))))
      else format inet_ntop e.src_ip
        ++ (b':' ∷ to_string e.sport
            ++ (codes " -> "
                ++ (format inet_ntop e.dst_ip
                    ++ (b':' ∷ to_string e.dport
                        ++ (codes " flags="
                            ++ (format_tcp_flags e.tcp_flags
                                ++ (codes " ttl=" ++ to_string e.ttl)))))))

  -- the loop over the events, the newest first, from a row of the screen on
  unfoldable pub event_rows : ℕ → List Event → List (ℕ × Text)
  unfolding event_line
  event_rows row [] = []
  event_rows row (e ∷ es) = (row, event_line e) ∷ event_rows (row + 1) es

  -- At most 20 events, and as many as there are rows for.
  unfoldable pub recent_lines : ℕ → List Event → List (ℕ × Text)
  unfolding event_rows reverse_onto
  recent_lines max_y recent_events =
      event_rows 15 (take (min 20 (max_y - 16)) (reverse_onto recent_events []))

  unfoldable pub threat_line : (ℕ → ℕ → Text) → ThreatRow → Text
  unfolding format_ratio get_os_from_ttl
  threat_line print_ratio row =
      pad_right 16 (format inet_ntop row.ip)
      ++ (32 ∷ pad_right 8 (to_string row.syn_count)
          ++ (32 ∷ pad_right 8 (to_string row.ack_count)
              ++ (32 ∷ pad_right 8 (format_ratio print_ratio row.syn_count row.ack_count)
                  ++ (32 ∷ pad_right 16 (get_os_from_ttl row.ttl)
                      ++ (32
                          ∷ pad_right 16
                              (if row.flagged then codes "SYN_FLOOD" else codes "OK"))))))

  -- the loop of the view `threats`, from row `line` on
  unfoldable pub threat_lines : (ℕ → ℕ → Text) → ℕ → ℕ → List ThreatRow → List (ℕ × Text)
  unfolding threat_line
  threat_lines print_ratio max_y line [] = []
  threat_lines print_ratio max_y line (row ∷ rows) =
      let rest = threat_lines print_ratio max_y (line + 1) rows in
      if leb (max_y - 1) line then [] else (line, threat_line print_ratio row) ∷ rest

  -- the marker of the selected row
  abbrev pub marker : ℕ → ℕ → ℕ
  marker i selected = if i == selected then b'>' else 32

  unfoldable pub firewall_line : ℕ → ℕ → FirewallRow → Text
  firewall_line i selected row =
      marker i selected
        ∷ 32
        ∷ pad_right 20 (format inet_ntop row.ip ++ (b'/' ∷ to_string row.prefixlen))
      ++ (32 ∷ pad_right 12 (to_string row.drop_count) ++ (32 ∷ to_string row.age_s ++ (b's' ∷ [])))

  -- the loop of the view `firewall`, from row `i` of the list at row `line` on
  unfoldable pub firewall_lines : ℕ → ℕ → ℕ → ℕ → List FirewallRow → List (ℕ × Text)
  unfolding firewall_line
  firewall_lines max_y selected line i [] = []
  firewall_lines max_y selected line i (row ∷ rows) =
      let rest = firewall_lines max_y selected (line + 1) (i + 1) rows in
      if ltb line (max_y - 2) then (line, firewall_line i selected row) ∷ rest else []

-- the selected index behind the drawing of the view `firewall`
unfoldable pub clamp_selected : List FirewallRow → ℕ → ℕ
clamp_selected rows i = if leb (length rows) i && not (length rows == 0) then length rows - 1 else i

-- what the drawing does to the object
unfoldable pub render_app : List FirewallRow → App → App
unfolding clamp_selected
render_app rows a = elim (a.current_view) [
  | dashboard ↦ a
  | threats ↦ a
  | firewall ↦ record a { firewall_selected_index = clamp_selected rows a.firewall_selected_index }
  | demos ↦ a
]
