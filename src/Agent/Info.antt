-- ===== src/Agent/Info.antt =====
-- http_server.cpp and mcp_server.cpp: the text that tells the user how to reach a server.
use windbg_agent.Base.Decimal.{to_string}
use windbg_agent.Base.{ℕ, [], ◌∷◌, Bytes, codes, joined}

unfoldable pub format_http_info : Bytes → ℕ → Bytes → Bytes → Bytes
unfolding to_string joined
format_http_info target pid state url = joined (
    codes "HTTP SERVER ACTIVE\n"
    ∷ codes "Target: "
    ∷ target
    ∷ codes " (PID "
    ∷ to_string pid
    ∷ codes ")\n"
    ∷ codes "State: "
    ∷ state
    ∷ codes "\n"
    ∷ codes "URL: "
    ∷ url
    ∷ codes "\n"
    ∷ codes "\n"
    ∷ codes "HTTP API ENDPOINTS:\n"
    ∷ codes "  POST "
    ∷ url
    ∷ codes "/exec     - Execute raw debugger command\n"
    ∷ codes "  POST "
    ∷ url
    ∷ codes "/break    - Break into a running target (works while g is in flight)\n"
    ∷ codes "  GET  "
    ∷ url
    ∷ codes "/status   - Server status\n"
    ∷ codes "  POST "
    ∷ url
    ∷ codes "/shutdown - Stop server\n"
    ∷ codes "\n"
    ∷ codes "CURL EXAMPLES:\n"
    ∷ codes "  curl -X POST "
    ∷ url
    ∷ codes "/exec \\\n"
    ∷ codes "    -H \"Content-Type: application/json\" \\\n"
    ∷ codes "    -d '{\"command\": \"kb\"}'\n"
    ∷ codes "\n"
    ∷ codes "  curl -X POST "
    ∷ url
    ∷ codes "/exec -H \"Content-Type: application/json\" -d '{\"command\": \"r rax\"}'\n"
    ∷ codes "  curl -X POST "
    ∷ url
    ∷ codes "/exec -H \"Content-Type: application/json\" -d '{\"command\": \"!analyze -v\"}'\n"
    ∷ codes "\n"
    ∷ codes "PYTHON:\n"
    ∷ codes "  import requests\n"
    ∷ codes "  r = requests.post('"
    ∷ url
    ∷ codes "/exec', json={'command': 'kb'})\n"
    ∷ codes "  print(r.json()['output'])\n"
    ∷ codes "\n"
    ∷ codes "RESPONSE FORMAT:\n"
    ∷ codes "  /exec returns: {\"output\": \"...\", \"success\": true}\n"
    ∷ [])

unfoldable pub format_mcp_info : Bytes → ℕ → Bytes → Bytes → Bytes
unfolding to_string joined
format_mcp_info target pid state url = joined (
    codes "MCP SERVER ACTIVE\n"
    ∷ codes "Target: "
    ∷ target
    ∷ codes " (PID "
    ∷ to_string pid
    ∷ codes ")\n"
    ∷ codes "State: "
    ∷ state
    ∷ codes "\n"
    ∷ codes "SSE Endpoint: "
    ∷ url
    ∷ codes "/sse\n"
    ∷ codes "Message Endpoint: "
    ∷ url
    ∷ codes "/messages\n"
    ∷ codes "\n"
    ∷ codes "AVAILABLE TOOLS:\n"
    ∷ codes "  dbg_exec  - Execute a debugger command\n"
    ∷ codes "\n"
    ∷ codes "MCP CLIENT CONFIGURATION:\n"
    ∷ codes "Add to your MCP client (e.g., Claude Desktop):\n"
    ∷ codes "{\n"
    ∷ codes "  \"mcpServers\": {\n"
    ∷ codes "    \"windbg-agent\": {\n"
    ∷ codes "      \"url\": \""
    ∷ url
    ∷ codes "/sse\"\n"
    ∷ codes "    }\n"
    ∷ codes "  }\n"
    ∷ codes "}\n"
    ∷ codes "\n"
    ∷ codes "EXAMPLE CURL COMMANDS:\n"
    ∷ codes "  # List available tools\n"
    ∷ codes "  curl -X POST "
    ∷ url
    ∷ codes "/messages \\\n"
    ∷ codes "    -H \"Content-Type: application/json\" \\\n"
    ∷ codes "    -d '{\"jsonrpc\":\"2.0\",\"id\":1,\"method\":\"tools/list\",\"params\":{}}'\n"
    ∷ codes "\n"
    ∷ codes "  # Execute a debugger command\n"
    ∷ codes "  curl -X POST "
    ∷ url
    ∷ codes "/messages \\\n"
    ∷ codes "    -H \"Content-Type: application/json\" \\\n"
    ∷ codes
        "    -d '{\"jsonrpc\":\"2.0\",\"id\":2,\"method\":\"tools/call\",\"params\":{\"name\":\"dbg_exec\",\"arguments\":{\"command\":\"kb\"}}}'\n"
    ∷ [])
